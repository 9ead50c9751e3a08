-- ===== src/Engine/Evaluate/Total.antt =====
-- Evaluation in src/engine.rs over policies compiled by src/loader.rs: an authorizer that allows
-- always leaves evidence, so that nothing fails after it.
use treetop_core.Prelude.{
  String, List, [], ◌∷◌, Option, none, some, Bool, ◌≡◌, refl, sym, ap, subst, ◌∙◌, inl, inr, Member,
  get_elem?, Option-cases, string_eq, if◌then◌else◌,
}
use treetop_core.Prelude.Assoc.{get}
use treetop_core.Error.{ok, or_fail, >>=-eq-ok, ok-inj, or_fail-eq-ok, policy_store_routing_error}
use treetop_core.Cedar.{Cedar}
use treetop_core.Cedar.Syntax.{permit}
use treetop_core.Cedar.Authorization.{Authorization, Response, CedarDecision, allow, deny}
use treetop_core.Types.Attr.{RequestContext}
use treetop_core.Types.Resource.{Request}
use treetop_core.Store.Layout.{PolicyStoreLayout, resolve_request}
use treetop_core.Partition.{PolicySets, partition_policy_set, resolve_set}
use treetop_core.Partition.Contents.{partition-Holds, partition-eq-ok}
use treetop_core.Decision.{
  PermitPolicy, Decision, PolicyVersion, allow_with, deny_with, new_permit_policy,
  DecisionDiagnostics, from_cedar, has_none,
}
use treetop_core.Loader.{precompute_permit_policies}
use treetop_core.Loader.Metadata.{precompute_permit_policies-HasEntry}
use treetop_core.Engine.Snapshot.{
  PolicySnapshot, EngineState, state_version, compile, sets_of,
  from_policy_text_with_schema_and_stores,
}
use treetop_core.Engine.Evaluate.{
  filter_map, extract_permit_policies, extract_forbid_policy_ids, conclude, prepare, evaluate_state,
}

module _ (c : Cedar) (a : Authorization c) where
  open c use {Policy, policy_id, effect, PolicySet, policies}
  open a use {Schema, CedarRequest, Entities, is_authorized}

  -- The authorizer allows because of a permit policy of the set, and says which.
  unfoldable pub GivesReasons : Type 0
  GivesReasons =
      (request : CedarRequest) (set : PolicySet) (entities : Entities)
      → (is_authorized request set entities).decision ≡ allow
      → (p : Policy) × Member p (policies set)
        × (effect p ≡ permit)
        × Member (policy_id p) (is_authorized request set entities).reason

  -- The policies of the set that decides are policies of the source.
  sets_of-Member :
      (source : PolicySet) (layout : Option PolicyStoreLayout) (sets : PolicySets c)
      (request : Request c) (set : PolicySet) (p : Policy)
      → sets_of c a source layout ≡ ok sets
      → resolve_set c sets request ≡ ok set
      → Member p (policies set)
      → Member p (policies source)
  unfolding resolve_set
  sets_of-Member source none sets request set p h at m =
      let same : ok source ≡ ok set =
        subst (λ x. resolve_set c x request ≡ ok set) (sym (ok-inj h)) at in
      subst (λ x. Member p (policies x)) (sym (ok-inj same)) m
  sets_of-Member source (some layout) sets request set p h at m =
      let (found, stores, shape, run) = partition-eq-ok c source layout sets h in
      let (index, routed, got) =
        >>=-eq-ok (resolve_request c layout request.action request.resource)
          (λ i. or_fail (get_elem? stores i) policy_store_routing_error)
          (subst (λ x. resolve_set c x request ≡ ok set) shape at) in
      let held = or_fail-eq-ok (get_elem? stores index) policy_store_routing_error got in
      let holds =
        partition-Holds c source layout stores
          (subst (λ x. partition_policy_set c source layout ≡ ok x) shape h) in
      ((holds.1 index p).0 (set, held, m)).0

  filter_map-nonempty :
      (reasons : List String) (table : List (String × PermitPolicy c a)) (id : String)
      (v : PermitPolicy c a)
      → Member id reasons
      → get id table ≡ some v
      → has_none c a (filter_map c a reasons table) ≡ Bool.false
  unfolding filter_map
  filter_map-nonempty [] table id v m h = absurd m
  filter_map-nonempty (r ∷ rs) table id v m h = elim (Option-cases (get r table)) [
    | inr (w, e) ↦ rw (e, filter_map) refl
    | inl e ↦
        let skip : filter_map c a (r ∷ rs) table ≡ filter_map c a rs table =
          rw (e, filter_map) refl in
        ap (has_none c a) skip
        ∙ filter_map-nonempty rs table id v
            (elim m [ inl own ↦ absurd (cc (own, e, h)) | inr deep ↦ deep ]) h
  ]

  abbrev concluded : EngineState c a → Response → Bool → Decision c a → DecisionDiagnostics c a
  concluded state result include decision = record {
    decision = decision;
    matched_forbid_policy_ids =
        if include then extract_forbid_policy_ids c a state.policy.value result else [];
  }

  from_cedar-allow :
      (decided : CedarDecision) (ps : List (PermitPolicy c a)) (v : PolicyVersion)
      → decided ≡ allow
      → has_none c a ps ≡ Bool.false
      → from_cedar c a decided ps v ≡ ok (allow_with ps v)
  unfolding from_cedar
  from_cedar-allow decided ps v e h = rw (e, h) refl

  from_cedar-deny :
      (decided : CedarDecision) (ps : List (PermitPolicy c a)) (v : PolicyVersion)
      → decided ≡ deny
      → from_cedar c a decided ps v ≡ ok (deny_with v)
  unfolding from_cedar
  from_cedar-deny decided ps v e = rw e refl

  conclude_decided :
      (state : EngineState c a) (decided : CedarDecision) (result : Response) (include : Bool)
      → result.decision ≡ decided
      → (result.decision ≡ allow
          → has_none c a (extract_permit_policies c a state.policy.value result) ≡ Bool.false)
      → (d : DecisionDiagnostics c a) × (conclude c a state result include ≡ ok d)
  unfolding conclude
  conclude_decided state allow result include e h = (
    concluded state result include (
        allow_with (extract_permit_policies c a state.policy.value result)
          (state_version c a state)),
    rw
        (from_cedar-allow result.decision (extract_permit_policies c a state.policy.value result)
          (state_version c a state) e (h e))
        refl,
  )
  conclude_decided state deny result include e h = (
    concluded state result include (deny_with (state_version c a state)),
    rw
        (from_cedar-deny result.decision (extract_permit_policies c a state.policy.value result)
          (state_version c a state) e)
        refl,
  )

  conclude_total :
      (state : EngineState c a) (result : Response) (include : Bool)
      → (result.decision ≡ allow
          → has_none c a (extract_permit_policies c a state.policy.value result) ≡ Bool.false)
      → (d : DecisionDiagnostics c a) × (conclude c a state result include ≡ ok d)
  unfolding conclude
  conclude_total state result include h =
      conclude_decided state result.decision result include refl h

  evidence :
      (snapshot : PolicySnapshot c a) (result : Response) (id : String) (v : PermitPolicy c a)
      → result.decision ≡ allow
      → Member id result.reason
      → get id snapshot.permit_policies ≡ some v
      → has_none c a (extract_permit_policies c a snapshot result) ≡ Bool.false
  unfolding extract_permit_policies
  evidence snapshot result id v allowed m h =
      rw (allowed, extract_permit_policies)
        (filter_map-nonempty result.reason snapshot.permit_policies id v m h)

  -- Over policies that were compiled from a text, whatever the stores, a request that routes and
  -- whose request and entities Cedar accepts gets a decision.
  pub evaluate_state_total :
      (text : String) (schema : Option Schema) (layout : Option PolicyStoreLayout)
      (loaded_at : String) (state : EngineState c a) (request : Request c)
      (context : Option RequestContext) (include : Bool) (set : PolicySet)
      (prepared : CedarRequest × Entities)
      → GivesReasons
      → from_policy_text_with_schema_and_stores c a text schema layout loaded_at
        ≡ ok state.policy.value
      → resolve_set c state.policy.value.sets request ≡ ok set
      → prepare c a state request context ≡ ok prepared
      → (d : DecisionDiagnostics c a) × (evaluate_state c a state request context include ≡ ok d)
  unfolding evaluate_state from_policy_text_with_schema_and_stores GivesReasons
  evaluate_state_total text schema layout loaded_at state request context include set prepared gives
        made at ready =
      let (source, compiled, h1) = >>=-eq-ok (compile c a text schema) _ made in
      let (table, found, h2) = >>=-eq-ok (precompute_permit_policies c a source) _ h1 in
      let (sets, parted, h3) = >>=-eq-ok (sets_of c a source layout) _ h2 in
      let same = ok-inj h3 in
      let result = is_authorized prepared.0 set prepared.1 in
      let (d, done) = conclude_total state result include (λ allowed.
        let (p, at_set, own, reason) = gives prepared.0 set prepared.1 allowed in
        let at_source =
          sets_of-Member source layout sets request set p parted
            (subst (λ (x : PolicySnapshot c a). resolve_set c x.sets request ≡ ok set) (sym same)
              at)
            at_set in
        let (json, _, entry) =
          precompute_permit_policies-HasEntry c a source table p found at_source own in
        evidence state.policy.value result (policy_id p)
          (new_permit_policy c a (a.show_policy p) json (policy_id p)) allowed reason
          (subst
            (λ (x : PolicySnapshot c a).
              get (policy_id p) x.permit_policies
              ≡ some (new_permit_policy c a (a.show_policy p) json (policy_id p)))
            same entry)) in
      (d, rw (at, ready) done)
