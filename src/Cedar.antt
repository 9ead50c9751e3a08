-- ===== src/Cedar.antt =====
-- What the code uses of the crate `cedar_policy`, as an interface: the model's definitions take a
-- value of `Cedar` and know of it only the fields below. A parser that fails gives `none`.
pub mod Syntax
pub mod Authorization
pub mod Text
use treetop_core.Prelude.{
  String, List, [], ◌∷◌, Option, some, Bool, true, ◌≡◌, ◌↔◌, ◌⊎◌, Eq, Member,
}
use treetop_core.Prelude.Sorting.{Order}
use treetop_core.Prelude.Int.{ℤ}
use treetop_core.Cedar.Syntax.{
  Effect, PrincipalConstraint, ActionConstraint, ResourceConstraint, Body,
}

pub record Cedar : Type 1 where
  -- `EntityTypeName`: `str::parse`, `Display`, `namespace_components` and `basename`
  pub TypeName : Type 0
  pub type_eq : Eq TypeName
  pub parse_type : String → Option TypeName
  pub show_type : TypeName → String
  pub namespace_components : TypeName → List String
  pub basename : TypeName → String
  -- `EntityUid`: `from_type_name_and_id` over `EntityId::new`, `type_name`, `id().unescaped()`,
  -- `EntityId::escaped`, and its `Ord`
  pub Uid : Type 0
  pub uid_eq : Eq Uid
  pub uid_of : TypeName → String → Uid
  pub type_name : Uid → TypeName
  pub entity_id : Uid → String
  pub parse_uid : String → Option Uid
  pub show_uid : Uid → String
  pub escaped : String → String
  pub uid_order : Order Uid
  pub type_name-uid_of : (t : TypeName) (i : String) → type_name (uid_of t i) ≡ t
  pub entity_id-uid_of : (t : TypeName) (i : String) → entity_id (uid_of t i) ≡ i
  -- `RestrictedExpression` and `Context::from_pairs`
  pub Restricted : Type 0
  pub new_string : String → Restricted
  pub new_bool : Bool → Restricted
  pub new_long : ℤ → Restricted
  pub new_ip : String → Restricted
  pub new_set : List Restricted → Restricted
  pub new_record : List (String × Restricted) → Option Restricted
  pub Context : Type 0
  pub empty_context : Context
  pub from_pairs : List (String × Restricted) → Option Context
  -- `Policy`. A `PolicyId` is its text, ordered by its `Ord`.
  pub Policy : Type 0
  pub policy_id : Policy → String
  pub id_order : Order String
  pub effect : Policy → Effect
  pub annotation : Policy → String → Option String
  pub principal_constraint : Policy → PrincipalConstraint Uid TypeName
  pub action_constraint : Policy → ActionConstraint Uid
  pub resource_constraint : Policy → ResourceConstraint Uid TypeName
  pub to_pst : Policy → Option Body
  -- `PolicySet`: a set of policies with distinct ids, read in an order that is not documented
  pub PolicySet : Type 0
  pub new_set_of_policies : PolicySet
  pub policies : PolicySet → List Policy
  pub add : PolicySet → Policy → Option PolicySet
  pub ids_identify :
      (s : PolicySet) (p q : Policy)
      → Member p (policies s)
      → Member q (policies s)
      → policy_id p ≡ policy_id q
      → p ≡ q
  pub policies-new : policies new_set_of_policies ≡ []
  pub policies-add :
      (s t : PolicySet) (p q : Policy)
      → add s p ≡ some t
      → Member q (policies t) ↔ ((q ≡ p) ⊎ Member q (policies s))
  pub add_fresh :
      (s : PolicySet) (p : Policy)
      → ((q : Policy) → Member q (policies s) → ¬ (policy_id q ≡ policy_id p))
      → (t : PolicySet) × (add s p ≡ some t)
