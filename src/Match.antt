-- ===== src/Match.antt =====
-- src/policy_match.rs: which scope constraint of a policy selects a principal, an action and a
-- resource, and the reasons of src/types/user_policies.rs.
pub mod Scope
use treetop_core.Prelude.{
  ℕ, String, List, [], ◌∷◌, Option, none, some, Bool, true, false, any, ◌&&◌, ◌||◌, if◌then◌else◌,
}
use treetop_core.Cedar.{Cedar}
use treetop_core.Cedar.Syntax.{
  Effect, permit, forbid, PrincipalConstraint, ActionConstraint, ResourceConstraint,
}
use treetop_core.Query.{PrincipalQuery, ResourceQuery, ActionQuery}

pub data PolicyEffectFilter : Type 0 where
  any_effect only_permit only_forbid : PolicyEffectFilter

pub data PolicyMatchReason : Type 0 where
  principal_eq principal_in principal_any principal_is principal_is_in : PolicyMatchReason
  action_eq action_in action_any : PolicyMatchReason
  resource_eq resource_in resource_any resource_is resource_is_in : PolicyMatchReason

abbrev effect_beq : Effect → Effect → Bool
effect_beq permit permit = true
effect_beq forbid forbid = true
effect_beq permit forbid = false
effect_beq forbid permit = false

unfoldable pub matches_effect : Effect → PolicyEffectFilter → Bool
matches_effect effect any_effect = true
matches_effect effect only_permit = effect_beq effect permit
matches_effect effect only_forbid = effect_beq effect forbid

-- A match arm's guard.
abbrev pub when {ℓ} : {A : Type ℓ} → Bool → A → Option A
when true a = some a
when false a = none

module _ (c : Cedar) where
  open c use {TypeName, type_eq, Uid, uid_eq}

  abbrev pub contains_uid : Uid → List Uid → Bool
  contains_uid uid uids = any (λ u. uid_eq.beq uid u) uids

  unfoldable pub principal_match_reason :
      PrincipalConstraint Uid TypeName → PrincipalQuery c → Option PolicyMatchReason
  principal_match_reason (PrincipalConstraint.eq uid) p = when (uid_eq.beq uid p.uid) principal_eq
  principal_match_reason (PrincipalConstraint.inside uid) p =
      when (uid_eq.beq uid p.uid || contains_uid uid p.parents) principal_in
  principal_match_reason PrincipalConstraint.any p = some principal_any
  principal_match_reason (PrincipalConstraint.is t) p =
      when (type_eq.beq t p.entity_type) principal_is
  principal_match_reason (PrincipalConstraint.is_in t parent) p =
      when
        (type_eq.beq t p.entity_type && (uid_eq.beq parent p.uid || contains_uid parent p.parents))
        principal_is_in

  -- `some none`: no resource is asked for.
  unfoldable pub resource_match_reason :
      ResourceConstraint Uid TypeName → Option (ResourceQuery c) → Option (Option PolicyMatchReason)
  resource_match_reason k none = some none
  resource_match_reason (ResourceConstraint.eq uid) (some r) =
      when (uid_eq.beq uid r.uid) (some resource_eq)
  resource_match_reason (ResourceConstraint.inside uid) (some r) =
      when (uid_eq.beq uid r.uid) (some resource_in)
  resource_match_reason ResourceConstraint.any (some r) = some (some resource_any)
  resource_match_reason (ResourceConstraint.is t) (some r) =
      when (type_eq.beq t r.entity_type) (some resource_is)
  resource_match_reason (ResourceConstraint.is_in t parent) (some r) =
      when (type_eq.beq t r.entity_type && uid_eq.beq parent r.uid) (some resource_is_in)

  unfoldable pub action_match_reason :
      ActionConstraint Uid → Option (ActionQuery c) → Option (Option PolicyMatchReason)
  action_match_reason k none = some none
  action_match_reason (ActionConstraint.eq uid) (some a) =
      when (uid_eq.beq uid a.uid) (some action_eq)
  action_match_reason (ActionConstraint.inside uids) (some a) =
      when (contains_uid a.uid uids) (some action_in)
  action_match_reason ActionConstraint.any (some a) = some (some action_any)
