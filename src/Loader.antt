-- ===== src/Loader.antt =====
-- src/loader.rs: compiling and validating policies, and the metadata that is computed beforehand.
pub mod Metadata
use treetop_core.Prelude.{String, List, [], ◌∷◌, none, some}
use treetop_core.Error.{parse_error, eval_error, Result, ok, ◌>>=◌, ◌>>◌, fail_if, or_fail}
use treetop_core.Prelude.{not}
use treetop_core.Cedar.{Cedar}
use treetop_core.Cedar.Syntax.{permit, forbid}
use treetop_core.Cedar.Authorization.{Authorization}
use treetop_core.Decision.{PermitPolicy, new_permit_policy}

module _ (c : Cedar) (a : Authorization c) where
  open c use {Policy, policy_id, effect, annotation, PolicySet, policies}
  open a use {Schema, parse_policies, validate, to_json, show_policy}

  unfoldable pub compile_policy : String → Result PolicySet
  compile_policy text = or_fail (parse_policies text) parse_error

  -- An invalid-action warning fails the validation, before its own verdict is read.
  unfoldable pub validate_policy_set_with_schema : PolicySet → Schema → Result (Unit {0})
  validate_policy_set_with_schema set schema = do
    fail_if (validate set schema).has_invalid_action parse_error
    fail_if (not (validate set schema).passed) parse_error
    ok tt

  unfoldable pub compile_policy_with_schema : String → Schema → Result PolicySet
  unfolding compile_policy validate_policy_set_with_schema
  compile_policy_with_schema text schema = do
    set ← compile_policy text
    _ ← validate_policy_set_with_schema set schema
    ok set

  -- The map as an association list, in the order of the policies.
  unfoldable pub precompute_permits : List Policy → Result (List (String × PermitPolicy c a))
  precompute_permits [] = ok []
  precompute_permits (p ∷ ps) = elim (effect p) [
    | permit ↦ do
      json ← or_fail (to_json p) eval_error
      rest ← precompute_permits ps
      ok ((policy_id p, new_permit_policy c a (show_policy p) json (policy_id p)) ∷ rest)
    | forbid ↦ precompute_permits ps
  ]

  unfoldable pub precompute_permit_policies : PolicySet → Result (List (String × PermitPolicy c a))
  unfolding precompute_permits
  precompute_permit_policies set = precompute_permits (policies set)

  abbrev best_id : Policy → String
  best_id p = elim (annotation p "id") [ none ↦ policy_id p | some id ↦ id ]

  unfoldable pub precompute_forbids : List Policy → List (String × String)
  precompute_forbids [] = []
  precompute_forbids (p ∷ ps) = elim (effect p) [
    | permit ↦ precompute_forbids ps
    | forbid ↦ (policy_id p, best_id p) ∷ precompute_forbids ps
  ]

  unfoldable pub precompute_forbid_policy_ids : PolicySet → List (String × String)
  unfolding precompute_forbids
  precompute_forbid_policy_ids set = precompute_forbids (policies set)
