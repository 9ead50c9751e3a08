-- ===== src/Tests/Identities.antt =====
-- Readers, printers and checks of identities, run on concrete texts.
use Prim.Native.String
use treetop_core.Prelude.{String, [], ◌∷◌, none, some, ◌≡◌, ◌↔◌, refl, Member, ◌≤◌, arith}
use treetop_core.Prelude.Texts.{trim}
use treetop_core.Error.{ok}
use treetop_core.Names.{join_name, split_name}
use treetop_core.Names.Join.{ArePlain}
use treetop_core.Types.Identity.{
  group_kind, QualifiedId, User, new_user, new_id, user_from_repr, type_text,
}
use treetop_core.Types.Resource.{Resource, new_resource}
use treetop_core.Types.Scan.{group_names}
use treetop_core.Types.Parse.{
  is_quoting, id_from_str, fmt_qualified, user_from_str, show_groups, resource_from_str,
  show_resource,
}
use treetop_core.Types.GroupText.{AreNames}
use treetop_core.Types.UserText.{user_from_str-show_groups}
use treetop_core.Types.RoundTrip.{id_from_str_again, resource_from_str-show_resource}
use treetop_core.Types.Users.{IsValidUser, user_from_str-IsValidUser, user_from_repr_iff}
use treetop_core.Query.{type_capacity, usize_max}
use treetop_core.Query.Capacity.{type_capacity_iff}
use treetop_core.Tests.Texts.{text_cedar, text_laws, differ}

abbrev member_of : String → QualifiedId text_cedar group_kind
unfolding text_cedar
member_of name = record { id = name; namespace = "App" ∷ []; uid = ("App::Group", name) }

-- A user whose id holds a quote and a bracket, with two groups.
abbrev alice : User text_cedar
unfolding text_cedar
alice = record {
  id = record { id = "al\"[ice"; namespace = "App" ∷ []; uid = ("App::User", "al\"[ice") };
  groups = member_of "devs" ∷ member_of "ops" ∷ [];
}

alice-new_user :
    new_user text_cedar "al\"[ice" (some ("devs" ∷ "ops" ∷ [])) (some ("App" ∷ [])) ≡ ok alice
unfolding text_cedar new_user new_id type_text join_name
alice-new_user = refl

group_names-AreNames : AreNames ("devs" ∷ "ops" ∷ [])
unfolding AreNames
group_names-AreNames =
    ((differ "devs" "" refl, refl, refl, refl), ((differ "ops" "" refl, refl, refl, refl), tt))

app-ArePlain : ArePlain ("App" ∷ [])
unfolding ArePlain
app-ArePlain = (refl, tt)

user_from_str-show_groups_example :
    user_from_str text_cedar
      (String.◌++◌ (fmt_qualified text_cedar alice.id) (show_groups text_cedar alice.groups))
    ≡ ok alice
user_from_str-show_groups_example =
    user_from_str-show_groups text_cedar text_laws "al\"[ice" (some ("devs" ∷ "ops" ∷ []))
      (some ("App" ∷ [])) alice alice-new_user group_names-AreNames app-ArePlain

abbrev devs : QualifiedId text_cedar group_kind
unfolding text_cedar
devs = member_of "devs"

-- The shorthand without quotes.
devs-id_from_str : id_from_str text_cedar group_kind " App::Group::devs" ≡ ok devs
unfolding text_cedar id_from_str trim type_text join_name split_name is_quoting
devs-id_from_str = refl

id_from_str_again_example :
    id_from_str text_cedar group_kind (fmt_qualified text_cedar devs) ≡ ok devs
id_from_str_again_example =
    id_from_str_again text_cedar text_laws group_kind " App::Group::devs" devs devs-id_from_str

abbrev host : Resource text_cedar
unfolding text_cedar
host = record {
  kind = "App::Host";
  id = "web\\01";
  attrs = λ k. none;
  uid = ("App::Host", "web\\01");
}

host-new_resource : new_resource text_cedar "App::Host" "web\\01" ≡ ok host
unfolding text_cedar new_resource
host-new_resource = refl

resource_from_str-show_resource_example :
    resource_from_str text_cedar (show_resource text_cedar host) ≡ ok host
resource_from_str-show_resource_example =
    resource_from_str-show_resource text_cedar text_laws "App::Host" "web\\01" host
      host-new_resource

abbrev bob : User text_cedar
unfolding text_cedar
bob = record {
  id = record { id = "bob"; namespace = "App" ∷ []; uid = ("App::User", "bob") };
  groups = member_of "devs" ∷ [];
}

bob-user_from_str : user_from_str text_cedar "App::User::bob[ devs ]" ≡ ok bob
unfolding text_cedar user_from_str trim type_text join_name split_name group_names is_quoting
bob-user_from_str = refl

user_from_str-IsValidUser_example : IsValidUser text_cedar bob
user_from_str-IsValidUser_example =
    user_from_str-IsValidUser text_cedar "App::User::bob[ devs ]" bob bob-user_from_str

user_from_repr_iff_example : (user_from_repr text_cedar bob.id bob.groups ≡ ok bob) ↔ (
    (g : QualifiedId text_cedar group_kind) → Member g bob.groups → g.namespace ≡ bob.id.namespace)
user_from_repr_iff_example = user_from_repr_iff text_cedar bob

type_capacity_iff_example :
    (type_capacity (String.len "User") ("A" ∷ "B" ∷ []) ≡ some 10)
    ↔ ((String.len (type_text ("A" ∷ "B" ∷ []) "User") ≡ 10) × (10 ≤ usize_max))
type_capacity_iff_example = type_capacity_iff ("A" ∷ "B" ∷ []) "User" 10 (omega arith)
