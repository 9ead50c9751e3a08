-- ===== src/Match/Scope.antt =====
-- What a policy's scope means, and that the match reasons of src/policy_match.rs decide it.
use treetop_core.Prelude.{
  List, [], ◌∷◌, Option, none, some, Bool, true, false, ◌&&◌, ◌||◌, ◌≡◌, refl, ◌↔◌, ◌⊎◌, arith,
  Member,
}
use treetop_core.Cedar.{Cedar}
use treetop_core.Cedar.Syntax.{PrincipalConstraint, ActionConstraint, ResourceConstraint}
use treetop_core.Query.{PrincipalQuery, ResourceQuery, ActionQuery}
use treetop_core.Match.{
  PolicyMatchReason, when, contains_uid, principal_match_reason, resource_match_reason,
  action_match_reason,
}

module _ (c : Cedar) where
  open c use {TypeName, type_eq, Uid, uid_eq}

  -- The principal is the entity, or one of its parents is.
  abbrev pub IsUnder : PrincipalQuery c → Uid → Type 0
  IsUnder p uid = (uid ≡ p.uid) ⊎ Member uid p.parents

  unfoldable pub InPrincipalScope : PrincipalConstraint Uid TypeName → PrincipalQuery c → Type 0
  InPrincipalScope PrincipalConstraint.any p = Unit
  InPrincipalScope (PrincipalConstraint.eq uid) p = uid ≡ p.uid
  InPrincipalScope (PrincipalConstraint.inside uid) p = IsUnder p uid
  InPrincipalScope (PrincipalConstraint.is t) p = t ≡ p.entity_type
  InPrincipalScope (PrincipalConstraint.is_in t uid) p = (t ≡ p.entity_type) × IsUnder p uid

  -- Without a resource or an action, the constraint on it is not read.
  unfoldable pub InResourceScope :
      ResourceConstraint Uid TypeName → Option (ResourceQuery c) → Type 0
  InResourceScope k none = Unit
  InResourceScope ResourceConstraint.any (some r) = Unit
  InResourceScope (ResourceConstraint.eq uid) (some r) = uid ≡ r.uid
  InResourceScope (ResourceConstraint.inside uid) (some r) = uid ≡ r.uid
  InResourceScope (ResourceConstraint.is t) (some r) = t ≡ r.entity_type
  InResourceScope (ResourceConstraint.is_in t uid) (some r) = (t ≡ r.entity_type) × (uid ≡ r.uid)

  unfoldable pub InActionScope : ActionConstraint Uid → Option (ActionQuery c) → Type 0
  InActionScope k none = Unit
  InActionScope ActionConstraint.any (some a) = Unit
  InActionScope (ActionConstraint.eq uid) (some a) = uid ≡ a.uid
  InActionScope (ActionConstraint.inside uids) (some a) = Member a.uid uids

  pub when-eq-some {ℓ} :
      {A : Type ℓ} (b : Bool) (a : A) → ((r : A) × (when b a ≡ some r)) ↔ (b ≡ true)
  when-eq-some true a = (λ h. refl, λ h. (a, refl))
  when-eq-some false a = (λ (r, h). cc h, λ h. cc h)

  contains_uid_iff : (u : Uid) (us : List Uid) → (contains_uid c u us ≡ true) ↔ Member u us
  contains_uid_iff u [] = (λ h. cc h, λ h. absurd h)
  contains_uid_iff u (v ∷ vs) = ground (arith, uid_eq.beq_iff u v, contains_uid_iff u vs)

  -- A principal constraint gives a reason exactly where the principal is in its scope.
  pub principal_match_reason_iff :
      (k : PrincipalConstraint Uid TypeName) (p : PrincipalQuery c)
      → ((r : PolicyMatchReason) × (principal_match_reason c k p ≡ some r)) ↔ InPrincipalScope k p
  unfolding principal_match_reason InPrincipalScope
  principal_match_reason_iff PrincipalConstraint.any p =
      (λ h. tt, λ h. (PolicyMatchReason.principal_any, refl))
  principal_match_reason_iff (PrincipalConstraint.eq uid) p = ground (
    arith,
    when-eq-some (uid_eq.beq uid p.uid) PolicyMatchReason.principal_eq,
    uid_eq.beq_iff uid p.uid,
  )
  principal_match_reason_iff (PrincipalConstraint.inside uid) p = ground (
    arith,
    when-eq-some (uid_eq.beq uid p.uid || contains_uid c uid p.parents)
        PolicyMatchReason.principal_in,
    uid_eq.beq_iff uid p.uid,
    contains_uid_iff uid p.parents,
  )
  principal_match_reason_iff (PrincipalConstraint.is t) p = ground (
    arith,
    when-eq-some (type_eq.beq t p.entity_type) PolicyMatchReason.principal_is,
    type_eq.beq_iff t p.entity_type,
  )
  principal_match_reason_iff (PrincipalConstraint.is_in t uid) p = ground (
    arith,
    when-eq-some
        (type_eq.beq t p.entity_type && (uid_eq.beq uid p.uid || contains_uid c uid p.parents))
        PolicyMatchReason.principal_is_in,
    type_eq.beq_iff t p.entity_type,
    uid_eq.beq_iff uid p.uid,
    contains_uid_iff uid p.parents,
  )

  -- A resource constraint accepts exactly where the resource, if one is asked for, is in its scope.
  pub resource_match_reason_iff :
      (k : ResourceConstraint Uid TypeName) (r : Option (ResourceQuery c))
      → ((o : Option PolicyMatchReason) × (resource_match_reason c k r ≡ some o))
        ↔ InResourceScope k r
  unfolding resource_match_reason InResourceScope
  resource_match_reason_iff k none = (λ h. tt, λ h. (none, refl))
  resource_match_reason_iff ResourceConstraint.any (some r) =
      (λ h. tt, λ h. (some PolicyMatchReason.resource_any, refl))
  resource_match_reason_iff (ResourceConstraint.eq uid) (some r) = ground (
    arith,
    when-eq-some (uid_eq.beq uid r.uid) (some PolicyMatchReason.resource_eq),
    uid_eq.beq_iff uid r.uid,
  )
  resource_match_reason_iff (ResourceConstraint.inside uid) (some r) = ground (
    arith,
    when-eq-some (uid_eq.beq uid r.uid) (some PolicyMatchReason.resource_in),
    uid_eq.beq_iff uid r.uid,
  )
  resource_match_reason_iff (ResourceConstraint.is t) (some r) = ground (
    arith,
    when-eq-some (type_eq.beq t r.entity_type) (some PolicyMatchReason.resource_is),
    type_eq.beq_iff t r.entity_type,
  )
  resource_match_reason_iff (ResourceConstraint.is_in t uid) (some r) = ground (
    arith,
    when-eq-some (type_eq.beq t r.entity_type && uid_eq.beq uid r.uid)
        (some PolicyMatchReason.resource_is_in),
    type_eq.beq_iff t r.entity_type,
    uid_eq.beq_iff uid r.uid,
  )

  -- An action constraint accepts exactly where the action, if one is asked for, is in its scope.
  pub action_match_reason_iff :
      (k : ActionConstraint Uid) (a : Option (ActionQuery c))
      → ((o : Option PolicyMatchReason) × (action_match_reason c k a ≡ some o)) ↔ InActionScope k a
  unfolding action_match_reason InActionScope
  action_match_reason_iff k none = (λ h. tt, λ h. (none, refl))
  action_match_reason_iff ActionConstraint.any (some a) =
      (λ h. tt, λ h. (some PolicyMatchReason.action_any, refl))
  action_match_reason_iff (ActionConstraint.eq uid) (some a) = ground (
    arith,
    when-eq-some (uid_eq.beq uid a.uid) (some PolicyMatchReason.action_eq),
    uid_eq.beq_iff uid a.uid,
  )
  action_match_reason_iff (ActionConstraint.inside uids) (some a) = ground (
    arith,
    when-eq-some (contains_uid c a.uid uids) (some PolicyMatchReason.action_in),
    contains_uid_iff a.uid uids,
  )
