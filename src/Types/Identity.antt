-- ===== src/Types/Identity.antt =====
-- `QualifiedId` of src/types/qualified_id.rs and what is built on it: src/types/group.rs, user.rs,
-- action.rs and principal.rs.
use Prim.Native.String
use treetop_core.Prelude.{
  String, List, [], ◌∷◌, Option, none, some, Bool, ◌==◌, string_eq, any, not,
}
use treetop_core.Error.{invalid_format, parse_error, Result, ok, ◌>>=◌, ◌>>◌, fail_if, or_fail}
use treetop_core.Names.{join_name}
use treetop_core.Cedar.{Cedar}

-- `QualifiedIdKind`, which is sealed to its three markers
pub data Kind : Type 0 where
  user_kind group_kind action_kind : Kind

abbrev pub cedar_type : Kind → String
cedar_type user_kind = "User"
cedar_type group_kind = "Group"
cedar_type action_kind = "Action"

-- The text that `validate_namespace_with_type` parses.
unfoldable pub type_text : List String → String → String
type_text [] name = name
type_text (s ∷ ss) name = String.◌++◌ (join_name (s ∷ ss)) (String.◌++◌ "::" name)

abbrev pub or_empty : Option (List String) → List String
or_empty none = []
or_empty (some ss) = ss

abbrev pub same_names : List String → List String → Bool
same_names [] [] = Bool.true
same_names (a ∷ as') (b ∷ bs) = elim (a == b) [
  | Bool.true ↦ same_names as' bs
  | Bool.false ↦ Bool.false
]
same_names _ _ = Bool.false

module _ (c : Cedar) where
  open c use {TypeName, parse_type, Uid, uid_of}

  -- A validated identifier, with its uid.
  pub record QualifiedId (k : Kind) : Type 0 where
    pub id : String
    pub namespace : List String
    pub uid : Uid

  unfoldable pub validate_namespace_with_type : Kind → List String → Result TypeName
  validate_namespace_with_type k namespace =
      or_fail (parse_type (type_text namespace (cedar_type k))) invalid_format

  unfoldable pub new_id : (k : Kind) → String → Option (List String) → Result (QualifiedId k)
  unfolding validate_namespace_with_type
  new_id k id namespace = do
    fail_if (id == "") invalid_format
    t ← validate_namespace_with_type k (or_empty namespace)
    ok (record { id = id; namespace = or_empty namespace; uid = uid_of t id })

  -- A group, and a list of groups.
  abbrev pub Group : Type 0
  Group = QualifiedId group_kind

  abbrev pub Action : Type 0
  Action = QualifiedId action_kind

  unfoldable pub new_groups : List String → Option (List String) → Result (List Group)
  unfolding new_id
  new_groups [] namespace = ok []
  new_groups (g ∷ gs) namespace = do
    group ← new_id group_kind g namespace
    rest ← new_groups gs namespace
    ok (group ∷ rest)

  pub record User : Type 0 where
    pub id : QualifiedId user_kind
    pub groups : List Group

  unfoldable pub new_user : String → Option (List String) → Option (List String) → Result User
  unfolding new_id new_groups
  new_user id groups namespace = do
    user ← new_id user_kind id namespace
    gs ← new_groups (or_empty groups) namespace
    ok (record { id = user; groups = gs })

  -- `UserRepr`, and the check that `User::deserialize` makes of it.
  unfoldable pub user_from_repr : QualifiedId user_kind → List Group → Result User
  user_from_repr id groups = do
    fail_if (any (λ g. not (same_names g.namespace id.namespace)) groups) parse_error
    ok (record { id = id; groups = groups })

  pub data Principal : Type 0 where
    user : User → Principal
    group : Group → Principal

  abbrev pub principal_uid : Principal → Uid
  principal_uid (user u) = u.id.uid
  principal_uid (group g) = g.uid
