-- ===== src/Engine/Session.antt =====
-- The entry points of src/engine.rs: constructors, readers of the current state, evaluations and
-- listings of an engine. An engine is its shared cell.
pub mod Mode
use treetop_core.Prelude.{String, List, Option, none, some, Bool, true, false}
use treetop_core.Error.{parse_error, Result, ok, ◌>>=◌, or_fail}
use treetop_core.Cedar.{Cedar}
use treetop_core.Cedar.Authorization.{Authorization}
use treetop_core.Types.Attr.{RequestContext}
use treetop_core.Types.Identity.{principal_uid}
use treetop_core.Types.Resource.{Resource, Request}
use treetop_core.Store.Layout.{PolicyStoreLayout}
use treetop_core.Labels.{LabelRegistry}
use treetop_core.Partition.{PolicySets, store_ids, all_sets}
use treetop_core.Match.{PolicyEffectFilter}
use treetop_core.Match
use treetop_core.Decision.{Decision, DecisionDiagnostics, PolicyVersion}
use treetop_core.Listing.{
  PolicyCandidates, list_policies_with_effect, list_policies_for_user_with_resource_and_effect,
  list_policies_for_group_with_resource_and_effect,
}
use treetop_core.Engine.Snapshot.{
  PolicySnapshot, EngineState, state_version, from_policy_text_with_schema_and_stores,
}
use treetop_core.Engine.Evaluate.{evaluate_state}
use treetop_core.Engine.Publish.{State, Cell, from_snapshot, set_label_registry, Thread, replacing}

module _ (c : Cedar) (a : Authorization c) where
  open a use {Schema, parse_schema}

  -- `from_policy_text` and `from_policy_text_with_schema`
  abbrev pub from_policy_text_with_schema :
      String → Option Schema → String → Result (PolicySnapshot c a)
  from_policy_text_with_schema text schema loaded_at =
      from_policy_text_with_schema_and_stores c a text schema none loaded_at

  abbrev pub new_engine : Result (PolicySnapshot c a) → Result (Cell c a)
  new_engine compiled = do snapshot ← compiled; ok (from_snapshot c a snapshot)

  -- The constructors; `loaded_at` is the clock's text.
  unfoldable pub new_from_str : String → String → Result (Cell c a)
  unfolding from_policy_text_with_schema_and_stores from_snapshot
  new_from_str text loaded_at = new_engine (from_policy_text_with_schema text none loaded_at)

  unfoldable pub new_from_str_with_policy_stores :
      String → PolicyStoreLayout → String → Result (Cell c a)
  new_from_str_with_policy_stores text layout loaded_at =
      new_engine (from_policy_text_with_schema_and_stores c a text none (some layout) loaded_at)

  unfoldable pub new_from_str_with_schema : String → Schema → String → Result (Cell c a)
  new_from_str_with_schema text schema loaded_at =
      new_engine (from_policy_text_with_schema text (some schema) loaded_at)

  unfoldable pub new_from_str_with_schema_and_policy_stores :
      String → Schema → PolicyStoreLayout → String → Result (Cell c a)
  new_from_str_with_schema_and_policy_stores text schema layout loaded_at =
      new_engine
        (from_policy_text_with_schema_and_stores c a text (some schema) (some layout) loaded_at)

  unfoldable pub new_from_str_with_cedarschema : String → String → String → Result (Cell c a)
  unfolding new_from_str_with_schema
  new_from_str_with_cedarschema text schema_text loaded_at = do
    schema ← or_fail (parse_schema schema_text) parse_error
    new_from_str_with_schema text schema loaded_at

  unfoldable pub new_from_str_with_cedarschema_and_policy_stores :
      String → String → PolicyStoreLayout → String → Result (Cell c a)
  unfolding new_from_str_with_schema_and_policy_stores
  new_from_str_with_cedarschema_and_policy_stores text schema_text layout loaded_at = do
    schema ← or_fail (parse_schema schema_text) parse_error
    new_from_str_with_schema_and_policy_stores text schema layout loaded_at

  unfoldable pub with_label_registry : LabelRegistry c → Cell c a → Cell c a
  unfolding set_label_registry
  with_label_registry registry engine = set_label_registry c a registry engine

  -- `reload_from_str_with_cedarschema`: the thread that makes the call, once the schema is parsed.
  unfoldable pub reload_from_str_with_cedarschema : String → String → Result (Thread c a)
  reload_from_str_with_cedarschema text schema_text = do
    schema ← or_fail (parse_schema schema_text) parse_error
    ok (replacing text schema)

  -- Readers of the current state.
  unfoldable pub label_registry : Cell c a → Option (LabelRegistry c)
  label_registry engine = engine.current.value.label_registry

  unfoldable pub current_version : Cell c a → PolicyVersion
  unfolding state_version
  current_version engine = state_version c a engine.current.value

  unfoldable pub policy_store_ids : Cell c a → Option (List String)
  unfolding store_ids
  policy_store_ids engine = store_ids c engine.current.value.policy.value.sets

  abbrev pub into_decision : Result (DecisionDiagnostics c a) → Result (Decision c a)
  into_decision evaluated = do diagnostics ← evaluated; ok diagnostics.decision

  unfoldable pub evaluate_internal :
      Cell c a → Request c → Option RequestContext → Bool → Result (DecisionDiagnostics c a)
  unfolding evaluate_state
  evaluate_internal engine request context include_forbid_diagnostics =
      evaluate_state c a engine.current.value request context include_forbid_diagnostics

  unfoldable pub evaluate : Cell c a → Request c → Result (Decision c a)
  unfolding evaluate_internal
  evaluate engine request = into_decision (evaluate_internal engine request none false)

  unfoldable pub evaluate_with_context :
      Cell c a → Request c → RequestContext → Result (Decision c a)
  unfolding evaluate_internal
  evaluate_with_context engine request context =
      into_decision (evaluate_internal engine request (some context) false)

  unfoldable pub evaluate_with_diagnostics : Cell c a → Request c → Result (DecisionDiagnostics c a)
  unfolding evaluate_internal
  evaluate_with_diagnostics engine request = evaluate_internal engine request none true

  unfoldable pub evaluate_with_context_and_diagnostics :
      Cell c a → Request c → RequestContext → Result (DecisionDiagnostics c a)
  unfolding evaluate_internal
  evaluate_with_context_and_diagnostics engine request context =
      evaluate_internal engine request (some context) true

  -- The listings read the policy sets of the current state.
  abbrev current_sets : Cell c a → PolicySets c
  current_sets engine = engine.current.value.policy.value.sets

  unfoldable pub list_policies : Cell c a → Request c → PolicyCandidates c
  unfolding list_policies_with_effect
  list_policies engine request =
      list_policies_with_effect c (current_sets engine)
        (c.show_uid (principal_uid c request.principal)) request Match.only_permit

  unfoldable pub list_policies_for_user_with_resource :
      Cell c a
      → String
      → List String
      → List String
      → Option (Resource c)
      → Result (PolicyCandidates c)
  unfolding list_policies_for_user_with_resource_and_effect
  list_policies_for_user_with_resource engine id groups namespace resource =
      list_policies_for_user_with_resource_and_effect c (current_sets engine) id groups namespace
        resource Match.only_permit

  unfoldable pub list_policies_for_user :
      Cell c a → String → List String → List String → Result (PolicyCandidates c)
  unfolding list_policies_for_user_with_resource_and_effect
  list_policies_for_user engine id groups namespace =
      list_policies_for_user_with_resource_and_effect c (current_sets engine) id groups namespace
        none Match.only_permit

  unfoldable pub list_policies_for_group_with_resource :
      Cell c a → String → List String → Option (Resource c) → Result (PolicyCandidates c)
  unfolding list_policies_for_group_with_resource_and_effect
  list_policies_for_group_with_resource engine id namespace resource =
      list_policies_for_group_with_resource_and_effect c (current_sets engine) id namespace resource
        Match.only_permit

  unfoldable pub list_policies_for_group :
      Cell c a → String → List String → Result (PolicyCandidates c)
  unfolding list_policies_for_group_with_resource_and_effect
  list_policies_for_group engine id namespace =
      list_policies_for_group_with_resource_and_effect c (current_sets engine) id namespace none
        Match.only_permit
