-- ===== src/Types/Parse.antt =====
-- The readers and printers of identities: `split_string_into_cedar_parts` of src/types/resource.rs,
-- and the `FromStr`, `Display` and `Deserialize` of src/types/qualified_id.rs, group.rs, action.rs,
-- user.rs and resource.rs.
use Prim.Native.String
use treetop_core.Prelude.{
  ℕ, String, List, [], ◌∷◌, Option, none, some, Bool, false, not, ◌||◌, ◌==◌, string_eq, nat_eq,
  if◌then◌else◌, map,
}
use treetop_core.Prelude.Texts.{trim, any_code}
use treetop_core.Error.{invalid_format, Result, ok, ◌>>=◌, ◌>>◌, fail_if, or_fail}
use treetop_core.Names.{has_separator, rsplit_name}
use treetop_core.Cedar.{Cedar}
use treetop_core.Cedar.Text.{quote, backslash, uid_text}
use treetop_core.Types.Identity.{
  Kind, cedar_type, type_text, QualifiedId, new_id, Group, User, new_user, or_empty,
}
use treetop_core.Types.Resource.{Resource, new_resource, AttrMap}
use treetop_core.Types.Scan.{split_user_and_groups}

-- A character that only a quoted id may hold.
unfoldable pub is_quoting : ℕ → Bool
is_quoting n = (n == quote) || (n == backslash)

pub record CedarParts : Type 0 where
  pub id : String
  pub type_part : Option String
  pub namespace : Option (List String)

-- `(!namespace.is_empty()).then_some(namespace)`
abbrev pub then_some : List String → Option (List String)
then_some [] = none
then_some (s ∷ ss) = some (s ∷ ss)

abbrev pub join_ids : List String → String
join_ids [] = ""
join_ids (i ∷ []) = i
join_ids (i ∷ j ∷ is') = String.◌++◌ i (String.◌++◌ ", " (join_ids (j ∷ is')))

module _ (c : Cedar) where
  open c use {
    TypeName, parse_type, namespace_components, basename, Uid, parse_uid, type_name, entity_id,
    show_uid, escaped,
  }

  abbrev pub parts_of : TypeName → String → CedarParts
  parts_of t i = record {
    id = i;
    type_part = some (basename t);
    namespace = then_some (namespace_components t);
  }

  abbrev pub bare_parts : String → Result CedarParts
  bare_parts input = do
    fail_if (any_code is_quoting input) invalid_format
    ok (record { id = input; type_part = none; namespace = none })

  abbrev pub qualified_parts : String → Result CedarParts
  qualified_parts input = do
    around ← or_fail (rsplit_name input) invalid_format
    fail_if (around.1 == "" || any_code is_quoting around.1) invalid_format
    t ← or_fail (parse_type around.0) invalid_format
    ok (parts_of t around.1)

  -- The shorthand without quotes.
  unfoldable pub unquoted_parts : String → Result CedarParts
  unfolding has_separator rsplit_name any_code
  unquoted_parts input = if has_separator input then qualified_parts input else bare_parts input

  unfoldable pub split_string_into_cedar_parts : String → Result CedarParts
  unfolding trim unquoted_parts
  split_string_into_cedar_parts s = do
    fail_if (trim s == "") invalid_format
    elim (parse_uid (trim s)) [
      | some uid ↦ do
        fail_if (entity_id uid == "") invalid_format
        ok (parts_of (type_name uid) (entity_id uid))
      | none ↦ unquoted_parts (trim s)
    ]

  abbrev pub is_other : Option String → String → Bool
  is_other none expected = false
  is_other (some found) expected = not (found == expected)

  -- `FromStr` of `Group` and `Action`
  unfoldable pub id_from_str : (k : Kind) → String → Result (QualifiedId c k)
  unfolding split_string_into_cedar_parts new_id
  id_from_str k s = do
    parts ← split_string_into_cedar_parts s
    fail_if (is_other parts.type_part (cedar_type k)) invalid_format
    new_id c k parts.id parts.namespace

  -- `FromStr for User`
  unfoldable pub user_from_str : String → Result (User c)
  unfolding split_user_and_groups split_string_into_cedar_parts new_user
  user_from_str s = do
    found ← split_user_and_groups s
    parts ← split_string_into_cedar_parts found.0
    fail_if (is_other parts.type_part "User") invalid_format
    new_user c parts.id found.1 parts.namespace

  -- `FromStr for Resource`
  unfoldable pub resource_from_str : String → Result (Resource c)
  unfolding split_string_into_cedar_parts new_resource type_text
  resource_from_str s = do
    parts ← split_string_into_cedar_parts s
    kind ← or_fail parts.type_part invalid_format
    new_resource c (type_text (or_empty parts.namespace) kind) parts.id

  -- `fmt_qualified`, the `Display` of `User`, `Group` and `Action`
  unfoldable pub fmt_qualified : {k : Kind} → QualifiedId c k → String
  fmt_qualified q = show_uid q.uid

  -- `Display for Resource`
  unfoldable pub show_resource : Resource c → String
  unfolding uid_text
  show_resource r = uid_text r.kind (escaped r.id)

  -- `Display for Groups`
  unfoldable pub show_groups : List (Group c) → String
  show_groups gs = String.◌++◌ "[" (String.◌++◌ (join_ids (map (λ (g : Group c). g.id) gs)) "]")

  -- `Deserialize for Resource`: the fields of a `ResourceRepr`, checked by the constructor.
  unfoldable pub resource_from_repr : String → String → AttrMap → Result (Resource c)
  unfolding new_resource
  resource_from_repr kind id attrs = do r ← new_resource c kind id; ok (record r { attrs = attrs })
