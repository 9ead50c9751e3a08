-- ===== src/Engine/Evaluate/Outcome.antt =====
-- What an evaluation returns: its version, its evidence, and what it does not depend on.
use treetop_core.Prelude.{
  String, List, [], ◌∷◌, Option, some, Bool, true, false, string_eq, ◌≡◌, ◌≢◌, refl, sym, ap, ◌∙◌,
  subst, ◌↔◌, inl, inr, Option-cases, Member, if◌then◌else◌,
}
use treetop_core.Prelude.Assoc.{get}
use treetop_core.Error.{ok, ◌>>=◌, >>=-eq-ok, Result-cases, ok-inj}
use treetop_core.Cedar.{Cedar}
use treetop_core.Cedar.Authorization.{Authorization, Response, CedarDecision, allow, deny}
use treetop_core.Types.Attr.{RequestContext}
use treetop_core.Types.Resource.{Request}
use treetop_core.Partition.{resolve_set}
use treetop_core.Decision.{
  PolicyVersion, PermitPolicy, Decision, DecisionDiagnostics, allow_with, deny_with, is_allowed,
  version, permit_policies, from_cedar,
}
use treetop_core.Engine.Snapshot.{PolicySnapshot, EngineState, state_version}
use treetop_core.Engine.Evaluate.{
  filter_map, extract_permit_policies, extract_forbid_policy_ids, conclude, prepare, evaluate_state,
}

module _ (c : Cedar) (a : Authorization c) where
  open a use {is_authorized}

  -- A decision together with the response that it was made of.
  abbrev pub Concluded : EngineState c a → Response → Bool → DecisionDiagnostics c a → Type 0
  Concluded state result include d =
      (from_cedar c a result.decision (extract_permit_policies c a state.policy.value result)
          (state_version c a state)
        ≡ ok d.decision)
      × (d.matched_forbid_policy_ids
          ≡ (if include then extract_forbid_policy_ids c a state.policy.value result else []))

  pub evaluate_state-eq-ok :
      (state : EngineState c a) (request : Request c) (context : Option RequestContext)
      (include : Bool) (d : DecisionDiagnostics c a)
      → evaluate_state c a state request context include ≡ ok d
      → (set : c.PolicySet) × (prepared : a.CedarRequest × a.Entities) × (resolve_set c
            state.policy.value.sets request
          ≡ ok set)
        × (prepare c a state request context ≡ ok prepared)
        × Concluded state (is_authorized prepared.0 set prepared.1) include d
  unfolding evaluate_state conclude
  evaluate_state-eq-ok state request context include d h =
      let (set, at, h1) = >>=-eq-ok (resolve_set c state.policy.value.sets request) _ h in
      let (prepared, made, h2) = >>=-eq-ok (prepare c a state request context) _ h1 in
      let result = is_authorized prepared.0 set prepared.1 in
      let (decision, e, h3) =
        >>=-eq-ok
          (from_cedar c a result.decision (extract_permit_policies c a state.policy.value result)
            (state_version c a state))
          _ h2 in
      let same : decision ≡ d.decision =
        ap (λ (x : DecisionDiagnostics c a). x.decision) (ok-inj h3) in
      let ids : (if include then extract_forbid_policy_ids c a state.policy.value result else [])
          ≡ d.matched_forbid_policy_ids =
        ap (λ (x : DecisionDiagnostics c a). x.matched_forbid_policy_ids) (ok-inj h3) in
      (set, prepared, at, made, (e ∙ ap ok same, sym ids))

  pub from_cedar-version :
      (response : CedarDecision) (ps : List (PermitPolicy c a)) (v : PolicyVersion)
      (d : Decision c a)
      → from_cedar c a response ps v ≡ ok d
      → (version c a d ≡ v)
        × ((is_allowed c a d ≡ true) ↔ (response ≡ allow))
        × (is_allowed c a d ≡ true → (permit_policies c a d ≡ some ps) × (ps ≢ []))
  unfolding from_cedar version is_allowed permit_policies
  from_cedar-version allow [] v d h = cc h
  from_cedar-version allow (p ∷ ps) v d h =
      let same : allow_with (p ∷ ps) v ≡ d = ok-inj h in
      subst
        (λ x.
          (version c a x ≡ v)
          × ((is_allowed c a x ≡ true) ↔ (allow ≡ allow))
          × (is_allowed c a x ≡ true → (permit_policies c a x ≡ some (p ∷ ps)) × (p ∷ ps ≢ [])))
        same (refl, ((λ k. refl), (λ k. refl)), λ k. (refl, λ e. cc e))
  from_cedar-version deny ps v d h =
      let same : deny_with v ≡ d = ok-inj h in
      subst
        (λ x.
          (version c a x ≡ v)
          × ((is_allowed c a x ≡ true) ↔ (deny ≡ allow))
          × (is_allowed c a x ≡ true → (permit_policies c a x ≡ some ps) × (ps ≢ [])))
        same (refl, ((λ k. cc k), (λ k. cc k)), λ k. cc k)

  -- A decision carries the version of the very state that it was evaluated in.
  pub evaluate_state-version :
      (state : EngineState c a) (request : Request c) (context : Option RequestContext)
      (include : Bool) (d : DecisionDiagnostics c a)
      → evaluate_state c a state request context include ≡ ok d
      → version c a d.decision ≡ state_version c a state
  evaluate_state-version state request context include d h =
      let (set, prepared, _, _, (made, _)) =
        evaluate_state-eq-ok state request context include d h in
      (from_cedar-version _ _ _ d.decision made).0

  Member-filter_map :
      (reasons : List String) (table : List (String × PermitPolicy c a)) (p : PermitPolicy c a)
      → Member p (filter_map c a reasons table)
      → (id : String) × Member id reasons × (get id table ≡ some p)
  unfolding filter_map get
  Member-filter_map [] table p h = absurd h
  Member-filter_map (r ∷ rs) table p h = elim (Option-cases (get r table)) [
    | inl e ↦
        let deep : Member p (filter_map c a rs table) =
          subst (Member p) (rw (e, filter_map) refl) h in
        let (id, at, found) = Member-filter_map rs table p deep in (id, inr at, found)
    | inr (v, e) ↦
        let split : Member p (v ∷ filter_map c a rs table) =
          subst (Member p) {y = v ∷ filter_map c a rs table} (rw (e, filter_map) refl) h in
        elim split [
          | inl own ↦ (r, inl refl, e ∙ ap some (sym own))
          | inr deep ↦
              let (id, at, found) = Member-filter_map rs table p deep in (id, inr at, found)
        ]
  ]

  extract-allow :
      (snapshot : PolicySnapshot c a) (result : Response)
      → result.decision ≡ allow
      → extract_permit_policies c a snapshot result
        ≡ filter_map c a result.reason snapshot.permit_policies
  unfolding extract_permit_policies
  extract-allow snapshot result h = rw (h, extract_permit_policies) refl

  conclude-include :
      (state : EngineState c a) (result : Response)
      → (conclude c a state result true >>= λ d. ok d.decision)
        ≡ (conclude c a state result false >>= λ d. ok d.decision)
  unfolding conclude
  conclude-include state result =
      elim (Result-cases (
        from_cedar c a result.decision (extract_permit_policies c a state.policy.value result)
          (state_version c a state))) [
            | inl (e, p) ↦ rw (p, conclude) refl
            | inr (d, p) ↦ rw (p, conclude) refl
          ]

  -- Evaluation allows only what the authorizer allowed, on the policies of the store that the request
  -- routes to, and only with evidence: at least one permit policy, each the metadata of a policy
  -- that the authorizer gave as a reason. It denies what the authorizer denied.
  pub evaluate_state_sound :
      (state : EngineState c a) (request : Request c) (context : Option RequestContext)
      (include : Bool) (d : DecisionDiagnostics c a)
      → evaluate_state c a state request context include ≡ ok d
      → (set : c.PolicySet) × (prepared : a.CedarRequest × a.Entities) × (resolve_set c
            state.policy.value.sets request
          ≡ ok set)
        × (prepare c a state request context ≡ ok prepared)
        × ((is_allowed c a d.decision ≡ true)
            ↔ ((is_authorized prepared.0 set prepared.1).decision ≡ allow))
        × (is_allowed c a d.decision ≡ true
            → (ps : List (PermitPolicy c a)) × (permit_policies c a d.decision ≡ some ps)
              × (ps ≢ [])
              × ((p : PermitPolicy c a)
                  → Member p ps
                  → (id : String) × Member id (is_authorized prepared.0 set prepared.1).reason
                    × (get id state.policy.value.permit_policies ≡ some p)))
  unfolding get
  evaluate_state_sound state request context include d h =
      let (set, prepared, at, made, (done, _)) =
        evaluate_state-eq-ok state request context include d h in
      let result = is_authorized prepared.0 set prepared.1 in
      let (_, allowed, evidence) = from_cedar-version _ _ _ d.decision done in
      (
        set,
        prepared,
        at,
        made,
        allowed,
        λ k.
            let (found, some_policy) = evidence k in
            (
              extract_permit_policies c a state.policy.value result,
              found,
              some_policy,
              λ p m.
                  Member-filter_map result.reason state.policy.value.permit_policies p
                    (subst (Member p) (extract-allow state.policy.value result (allowed.0 k)) m),
            ),
      )

  -- The flag for diagnostics decides nothing.
  pub evaluate_state-include :
      (state : EngineState c a) (request : Request c) (context : Option RequestContext)
      → (evaluate_state c a state request context true >>= λ d. ok d.decision)
        ≡ (evaluate_state c a state request context false >>= λ d. ok d.decision)
  unfolding evaluate_state conclude
  evaluate_state-include state request context =
      elim (Result-cases (resolve_set c state.policy.value.sets request)) [
        | inl (e, p) ↦ rw (p, evaluate_state) refl
        | inr (set, p) ↦ elim (Result-cases (prepare c a state request context)) [
          | inl (e, q) ↦ rw (p, q, evaluate_state) refl
          | inr (prepared, q) ↦ rw (p, q, evaluate_state) (conclude-include state _)
        ]
      ]
