-- ===== src/Engine/Evaluate.antt =====
-- Evaluation in src/engine.rs: `prepare`, `evaluate_state` and what they call. Timers, tracing and
-- metrics only observe, and are left out.
pub mod Outcome
pub mod Trusted
pub mod Total
use treetop_core.Prelude.{
  String, List, [], ◌∷◌, ◌++◌, map, Option, none, some, Bool, string_eq, if◌then◌else◌,
}
use treetop_core.Prelude.Assoc.{get}
use treetop_core.Prelude.Sorting.{sort, dedup}
use treetop_core.Error.{
  request_validation_error, entity_attr_error, entity_error, Result, ok, err, ◌>>=◌, or_fail,
}
use treetop_core.Cedar.{Cedar}
use treetop_core.Cedar.Authorization.{Authorization, Response, CedarDecision, allow, deny}
use treetop_core.Types.Identity.{Group, User, Principal, user, group, principal_uid}
use treetop_core.Types.Attr.{RequestContext, build_effective_context}
use treetop_core.Types.Resource.{Resource, Request, cedar_attr}
use treetop_core.Labels.{LabelRegistry, apply_to_clone_if_applicable}
use treetop_core.Partition.{resolve_set}
use treetop_core.Decision.{PermitPolicy, DecisionDiagnostics, from_cedar}
use treetop_core.Engine.Snapshot.{PolicySnapshot, EngineState, state_version}

module _ (c : Cedar) (a : Authorization c) where
  open a use {
    Schema, CedarRequest, new_request, Entity, with_uid, new_entity, Entities, add_entities,
    is_authorized,
  }

  -- The metadata of the reasons that have some.
  unfoldable pub filter_map {ℓ} : {V : Type ℓ} → List String → List (String × V) → List V
  unfolding get
  filter_map [] table = []
  filter_map (reason ∷ reasons) table = elim (get reason table) [
    | none ↦ filter_map reasons table
    | some v ↦ v ∷ filter_map reasons table
  ]

  unfoldable pub extract_permit_policies : PolicySnapshot c a → Response → List (PermitPolicy c a)
  unfolding filter_map
  extract_permit_policies snapshot result = elim result.decision [
    | allow ↦ filter_map result.reason snapshot.permit_policies
    | deny ↦ []
  ]

  unfoldable pub extract_forbid_policy_ids : PolicySnapshot c a → Response → List String
  unfolding filter_map
  extract_forbid_policy_ids snapshot result = elim result.decision [
    | allow ↦ []
    | deny ↦ dedup (sort c.id_order.le (filter_map result.reason snapshot.forbid_policy_ids))
  ]

  unfoldable pub request_groups : Request c → Option (List (Group c))
  request_groups request = elim request.principal [ user u ↦ some u.groups | group g ↦ none ]

  -- The uids are a set: one of each, in an order that means nothing to Cedar.
  abbrev pub group_uids : Option (List (Group c)) → List c.Uid
  group_uids none = []
  group_uids (some groups) =
      dedup ⦃e = c.uid_eq⦄ (sort c.uid_order.le (map (λ (g : Group c). g.uid) groups))

  unfoldable pub build_entities :
      c.Uid → c.Uid → Resource c → Option (List (Group c)) → Option Schema → Result Entities
  unfolding cedar_attr
  build_entities principal_uid resource_uid resource groups schema = do
    resource_entity ← or_fail (new_entity resource_uid (cedar_attr c resource) []) entity_attr_error
    principal_entity ←
        or_fail (new_entity principal_uid (λ _. none) (group_uids groups)) entity_attr_error
    or_fail
        (add_entities (map with_uid (group_uids groups) ++ principal_entity ∷ resource_entity ∷ [])
          schema)
        entity_error

  unfoldable pub build_cedar_req :
      c.Uid → c.Uid → c.Uid → c.Context → Option Schema → Result CedarRequest
  build_cedar_req principal_uid action_uid resource_uid context schema =
      or_fail (new_request principal_uid action_uid resource_uid context schema)
        request_validation_error

  -- `labelled_resource.as_ref().unwrap_or(&request.resource)`
  abbrev pub or_original : Option (Resource c) → Resource c → Resource c
  or_original none resource = resource
  or_original (some labelled) resource = labelled

  unfoldable pub label_resource : Option (LabelRegistry c) → Resource c → Resource c
  unfolding apply_to_clone_if_applicable
  label_resource none resource = resource
  label_resource (some registry) resource =
      or_original (apply_to_clone_if_applicable c registry resource) resource

  -- The request and the entities of `PreparedRequest`.
  unfoldable pub prepare :
      EngineState c a → Request c → Option RequestContext → Result (CedarRequest × Entities)
  unfolding build_entities build_cedar_req label_resource
  prepare state request request_context =
      let schema = state.policy.value.schema in
      let resource = label_resource state.label_registry request.resource in
      do
        context ← build_effective_context c request_context
        cedar_req ←
            build_cedar_req (principal_uid c request.principal) request.action.uid resource.uid
              context schema
        entities ←
            build_entities (principal_uid c request.principal) resource.uid resource
              (request_groups request) schema
        ok (cedar_req, entities)

  -- From the authorizer's response on.
  unfoldable pub conclude : EngineState c a → Response → Bool → Result (DecisionDiagnostics c a)
  unfolding state_version from_cedar extract_permit_policies extract_forbid_policy_ids
  conclude state result include_forbid_diagnostics = do
    decision ←
        from_cedar c a result.decision (extract_permit_policies state.policy.value result)
          (state_version c a state)
    ok (record {
      decision = decision;
      matched_forbid_policy_ids =
          if include_forbid_diagnostics
          then extract_forbid_policy_ids state.policy.value result
          else [];
    })

  unfoldable pub evaluate_state :
      EngineState c a → Request c → Option RequestContext → Bool → Result (DecisionDiagnostics c a)
  unfolding conclude prepare resolve_set
  evaluate_state state request request_context include_forbid_diagnostics = do
    policy_set ← resolve_set c state.policy.value.sets request
    prepared ← prepare state request request_context
    conclude state (is_authorized prepared.0 policy_set prepared.1) include_forbid_diagnostics
