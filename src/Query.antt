-- ===== src/Query.antt =====
-- src/query.rs, with the uids of src/types/entity_uid.rs: whom a listing is about.
pub mod Agreement
pub mod Capacity
use Prim.Native.String
use treetop_core.Prelude.{
  ℕ, ◌+◌, String, List, [], ◌∷◌, map, Option, none, some, Bool, true, false, ◌==◌, string_eq, leb,
  if◌then◌else◌,
}
use treetop_core.Error.{invalid_format, Result, ok, err, ◌>>=◌, ◌>>◌, fail_if, or_fail}
use treetop_core.Cedar.{Cedar}
use treetop_core.Types.Identity.{
  QualifiedId, User, Group, Principal, user, group, Action, principal_uid, type_text,
}
use treetop_core.Types.Resource.{Resource}

-- `usize::MAX` on 64 bits
abbrev pub usize_max : ℕ
usize_max = 18446744073709551615

-- `usize::checked_add`
unfoldable pub checked_add : ℕ → ℕ → Option ℕ
checked_add a b = if leb (a + b) usize_max then some (a + b) else none

-- The `try_fold` that adds up the capacity.
unfoldable pub type_capacity : ℕ → List String → Option ℕ
unfolding checked_add
type_capacity size [] = some size
type_capacity size (s ∷ ss) = elim (checked_add size 2) [
  | none ↦ none
  | some separated ↦ elim (checked_add separated (String.len s)) [
    | none ↦ none
    | some total ↦ type_capacity total ss
  ]
]

-- The loop that pushes the segments; only the first has no separator before it.
unfoldable pub push_segments : String → Bool → List String → String
push_segments text first [] = text
push_segments text true (s ∷ ss) = push_segments (String.◌++◌ text s) false ss
push_segments text false (s ∷ ss) = push_segments (String.◌++◌ (String.◌++◌ text "::") s) false ss

module _ (c : Cedar) where
  open c use {TypeName, parse_type, Uid, uid_of, type_name}

  -- The text of the type; the capacity is computed where there is a namespace.
  unfoldable pub entity_type_text : List String → String → Result String
  unfolding type_capacity push_segments
  entity_type_text [] name = ok name
  entity_type_text (s ∷ ss) name = do
    _ ← or_fail (type_capacity (String.len name) (s ∷ ss)) invalid_format
    ok (String.◌++◌ (String.◌++◌ (push_segments "" true (s ∷ ss)) "::") name)

  unfoldable pub typed_entity_uid : String → List String → String → Result Uid
  unfolding entity_type_text
  typed_entity_uid id namespace name = do
    fail_if (id == "") invalid_format
    text ← entity_type_text namespace name
    t ← or_fail (parse_type text) invalid_format
    ok (uid_of t id)

  abbrev pub user_entity_uid : String → List String → Result Uid
  user_entity_uid id namespace = typed_entity_uid id namespace "User"

  abbrev pub group_entity_uid : String → List String → Result Uid
  group_entity_uid id namespace = typed_entity_uid id namespace "Group"

  abbrev pub action_entity_uid : String → List String → Result Uid
  action_entity_uid id namespace = typed_entity_uid id namespace "Action"

  pub record PrincipalQuery : Type 0 where
    pub uid : Uid
    pub entity_type : TypeName
    pub parents : List Uid

  unfoldable pub group_uids : List String → List String → Result (List Uid)
  group_uids [] namespace = ok []
  group_uids (g ∷ gs) namespace = do
    uid ← group_entity_uid g namespace
    rest ← group_uids gs namespace
    ok (uid ∷ rest)

  unfoldable pub for_user : String → List String → List String → Result PrincipalQuery
  for_user id groups namespace = do
    uid ← user_entity_uid id namespace
    parents ← group_uids groups namespace
    ok (record { uid = uid; entity_type = type_name uid; parents = parents })

  unfoldable pub for_group : String → List String → Result PrincipalQuery
  for_group id namespace = do
    uid ← group_entity_uid id namespace
    ok (record { uid = uid; entity_type = type_name uid; parents = uid ∷ [] })

  abbrev pub principal_parents : Principal c → List Uid
  principal_parents (user u) = map (λ (g : Group c). g.uid) u.groups
  principal_parents (group g) = g.uid ∷ []

  unfoldable pub from_principal : Principal c → PrincipalQuery
  from_principal p = record {
    uid = principal_uid c p;
    entity_type = type_name (principal_uid c p);
    parents = principal_parents p;
  }

  pub record ResourceQuery : Type 0 where
    pub uid : Uid
    pub entity_type : TypeName

  unfoldable pub from_resource : Resource c → ResourceQuery
  from_resource r = record { uid = r.uid; entity_type = type_name r.uid }

  -- `ActionQuery`, the uid alone.
  pub record ActionQuery : Type 0 where
    pub uid : Uid

  unfoldable pub from_action : Action c → ActionQuery
  from_action a = record { uid = a.uid }
