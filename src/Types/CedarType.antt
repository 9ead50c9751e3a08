-- ===== src/Types/CedarType.antt =====
-- `CedarType` of src/types/cedar_type.rs: the entity types by name.
use treetop_core.Prelude.{
  String, Option, none, some, ◌≡◌, ◌↔◌, refl, subst, ◌==◌, string_eq, eq_iff, if◌then◌else◌, arith,
}

pub data CedarType : Type 0 where
  user_type group_type principal_type action_type resource_type : CedarType

-- `AsRef<str>`, which `Display` writes.
abbrev pub as_ref : CedarType → String
as_ref user_type = "User"
as_ref group_type = "Group"
as_ref principal_type = "Principal"
as_ref action_type = "Action"
as_ref resource_type = "Resource"

-- `FromStr`; the error only carries the text.
abbrev pub from_str : String → Option CedarType
from_str s =
    if s == "User"
    then some user_type
    else if s == "Group"
    then some group_type
    else if s == "Principal"
    then some principal_type
    else if s == "Action"
    then some action_type
    else if s == "Resource"
    then some resource_type
    else none

from_str-as_ref : (t : CedarType) → from_str (as_ref t) ≡ some t
from_str-as_ref user_type = refl
from_str-as_ref group_type = refl
from_str-as_ref principal_type = refl
from_str-as_ref action_type = refl
from_str-as_ref resource_type = refl

from_str_sound : (s : String) (t : CedarType) → from_str s ≡ some t → as_ref t ≡ s
from_str_sound s t h = ground (
  arith,
  eq_iff s "User",
  eq_iff s "Group",
  eq_iff s "Principal",
  eq_iff s "Action",
  eq_iff s "Resource",
)

-- A text is read as a type exactly where it is that type's name.
pub from_str_iff : (s : String) (t : CedarType) → (from_str s ≡ some t) ↔ (as_ref t ≡ s)
from_str_iff s t =
    (from_str_sound s t, λ same. subst (λ x. from_str x ≡ some t) same (from_str-as_ref t))
