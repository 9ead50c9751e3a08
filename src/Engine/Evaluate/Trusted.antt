-- ===== src/Engine/Evaluate/Trusted.antt =====
-- Evaluation trusts no attribute that a labeler owns, and names forbid policies on denials alone.
use treetop_core.Prelude.{
  String, List, [], Option, some, Bool, true, false, ◌≡◌, ◌≢◌, refl, sym, ◌∙◌, subst, ◌⊎◌, inl, inr,
  if◌then◌else◌, string_eq,
}
use treetop_core.Prelude.Sorting.{IsStrict, sort-IsSorted, dedup-IsStrict, sort, dedup}
use treetop_core.Error.{ok}
use treetop_core.Cedar.{Cedar}
use treetop_core.Cedar.Authorization.{Authorization, Response, CedarDecision, allow, deny}
use treetop_core.Types.Attr.{RequestContext}
use treetop_core.Types.Resource.{Resource, Request}
use treetop_core.Labels.{LabelRegistry, RegisteredLabeler, scope_of, apply}
use treetop_core.Labels.Apply.{AgreeOutside}
use treetop_core.Labels.Registry.{owns, apply-unforgeable, apply_to_clone_iff}
use treetop_core.Store.Layout.{resolve_request}
use treetop_core.Partition.{PolicySets, monolithic, scoped, resolve_set}
use treetop_core.Decision.{DecisionDiagnostics, is_allowed}
use treetop_core.Engine.Snapshot.{PolicySnapshot, EngineState}
use treetop_core.Engine.Evaluate.{
  extract_forbid_policy_ids, evaluate_state, prepare, label_resource, request_groups, filter_map,
}
use treetop_core.Engine.Evaluate.Outcome.{evaluate_state-eq-ok, from_cedar-version}

module _ (c : Cedar) (a : Authorization c) where
  -- A request with another resource.
  abbrev pub with_resource : Request c → Resource c → Request c
  with_resource request s = record request { resource = s }

  label_resource-apply :
      (registry : LabelRegistry c) (r : Resource c)
      → label_resource c a (some registry) r ≡ apply c registry r
  unfolding label_resource
  label_resource-apply registry r = elim (apply_to_clone_iff c registry r) [
    | inl (p, _, q) ↦ rw (p, label_resource) (sym q)
    | inr (ls, _, p) ↦ rw (p, label_resource) refl
  ]

  resolve_set-kind :
      (sets : PolicySets c) (request : Request c) (s : Resource c)
      → request.resource.kind ≡ s.kind
      → resolve_set c sets request ≡ resolve_set c sets (with_resource request s)
  unfolding resolve_set resolve_request
  resolve_set-kind (monolithic set) request s h = refl
  resolve_set-kind (scoped layout stores) request s h = rw h refl

  prepare-label :
      (state : EngineState c a) (request : Request c) (context : Option RequestContext)
      (s : Resource c)
      → label_resource c a state.label_registry request.resource
        ≡ label_resource c a state.label_registry s
      → prepare c a state request context ≡ prepare c a state (with_resource request s) context
  unfolding prepare request_groups
  prepare-label state request context s h = rw h refl

  -- Evaluation does not read what the caller put in the attributes that the registry's labelers own
  -- for the resource's type: requests that differ in those alone have one outcome.
  pub evaluate_state-unforgeable :
      (state : EngineState c a) (request : Request c) (context : Option RequestContext)
      (include : Bool) (s : Resource c) (registry : LabelRegistry c)
      {ls : List (RegisteredLabeler c)}
      → state.label_registry ≡ some registry
      → scope_of c registry request.resource ≡ some ls
      → AgreeOutside c (owns c registry request.resource) request.resource s
      → evaluate_state c a state request context include
        ≡ evaluate_state c a state (with_resource request s) context include
  unfolding evaluate_state
  evaluate_state-unforgeable state request context include s registry installed scope agree =
      let labelled : label_resource c a state.label_registry request.resource
          ≡ label_resource c a state.label_registry s =
        rw installed (
          label_resource-apply registry request.resource
          ∙ apply-unforgeable c registry request.resource s scope agree
          ∙ sym (label_resource-apply registry s)) in
      rw
        (
          resolve_set-kind state.policy.value.sets request s agree.kind,
          prepare-label state request context s labelled,
        )
        refl

  by_flag :
      (b : Bool) (xs : List String) (P : Type 0)
      → IsStrict c.id_order xs
      → (xs ≢ [] → P)
      → IsStrict c.id_order (if b then xs else []) × ((if b then xs else []) ≢ [] → (b ≡ true) × P)
  by_flag true xs P strict h = (strict, λ k. (refl, h k))
  by_flag false xs P strict h = (tt, λ k. absurd (k refl))

  decision-cases : (d : CedarDecision) → (d ≡ allow) ⊎ (d ≡ deny)
  decision-cases allow = inl refl
  decision-cases deny = inr refl

  extract-deny :
      (snapshot : PolicySnapshot c a) (result : Response)
      → IsStrict c.id_order (extract_forbid_policy_ids c a snapshot result)
        × (extract_forbid_policy_ids c a snapshot result ≢ [] → result.decision ≢ allow)
  extract-deny snapshot result = elim (decision-cases result.decision) [
    | inl e ↦
        let none_at_all : extract_forbid_policy_ids c a snapshot result ≡ [] =
          unfold extract_forbid_policy_ids in rw (e, extract_forbid_policy_ids) refl in
        (subst (IsStrict c.id_order) (sym none_at_all) tt, λ k. absurd (k none_at_all))
    | inr e ↦
        let found = filter_map c a result.reason snapshot.forbid_policy_ids in
        let shape : extract_forbid_policy_ids c a snapshot result
            ≡ dedup (sort c.id_order.le found) =
          unfold extract_forbid_policy_ids in rw (e, extract_forbid_policy_ids) refl in
        (
          subst (IsStrict c.id_order) (sym shape) (
              dedup-IsStrict c.id_order (sort c.id_order.le found)
                (sort-IsSorted c.id_order.le c.id_order.le_total c.id_order.le_trans found)),
          λ k f. cc (e, f),
        )
  ]

  -- Forbid policies are named only where diagnostics were asked for and the request was not allowed,
  -- in strict order, so that none is named twice.
  pub evaluate_state-forbids :
      (state : EngineState c a) (request : Request c) (context : Option RequestContext)
      (include : Bool) (d : DecisionDiagnostics c a)
      → evaluate_state c a state request context include ≡ ok d
      → IsStrict c.id_order d.matched_forbid_policy_ids
        × (d.matched_forbid_policy_ids ≢ [] → (include ≡ true) × (is_allowed c a d.decision ≢ true))
  evaluate_state-forbids state request context include d h =
      let (set, prepared, _, _, (made, ids)) =
        evaluate_state-eq-ok c a state request context include d h in
      let result = a.is_authorized prepared.0 set prepared.1 in
      let (_, allowed, _) = from_cedar-version c a _ _ _ d.decision made in
      let (strict, denied) = extract-deny state.policy.value result in
      subst
        (λ xs.
          IsStrict c.id_order xs
          × (xs ≢ [] → (include ≡ true) × (is_allowed c a d.decision ≢ true)))
        (sym ids)
        (by_flag include (extract_forbid_policy_ids c a state.policy.value result)
          (is_allowed c a d.decision ≢ true) strict (λ k f. denied k (allowed.0 f)))
