-- ===== src/Metrics/Reported.antt =====
-- What sinks of src/metrics.rs can and cannot do to an evaluation, and what they are shown.
use treetop_core.Prelude.{
  ℕ, String, List, [], Option, none, some, Bool, true, false, ◌≡◌, refl, ap, subst, ◌∙◌, ◌⊎◌, inl,
  inr, Bool-cases,
}
use treetop_core.Error.{Result, ok, err, ok-inj, fail_if-eq-ok, eval_error, >>=-eq-ok, Result-cases}
use treetop_core.Cedar.{Cedar}
use treetop_core.Cedar.Authorization.{Authorization, Response, CedarDecision, allow, deny}
use treetop_core.Types.Attr.{RequestContext}
use treetop_core.Types.Resource.{Request}
use treetop_core.Partition.{resolve_set}
use treetop_core.Decision.{
  PermitPolicy, Decision, allow_with, deny_with, is_allowed, permit_policies, has_none, from_cedar,
  DecisionDiagnostics,
}
use treetop_core.Decision
use treetop_core.Engine.Snapshot.{EngineState, state_version}
use treetop_core.Engine.Evaluate.{
  prepare, conclude, evaluate_state, extract_permit_policies, extract_forbid_policy_ids,
}
use treetop_core.Metrics.{
  Called, returned, panicked, left_in, catch_unwind, metrics_enabled, record_evaluation_observation,
  MetricsSink, EvaluationStats, EvaluationObservation, report, evaluate_state_observed,
  observation_of, to_owned_stats, matched_policy_ids,
}

Called-cases :
    {S A : Type 0} (m : Called S A)
    → ((x : A) × (s : S) × (m ≡ returned x s)) ⊎ ((s : S) × (m ≡ panicked s))
Called-cases (returned x s) = inl (x, s, refl)
Called-cases (panicked s) = inr (s, refl)

-- The answer of a sink that is asked whether it is enabled; a panic is a no.
abbrev pub says_yes : {S : Type 0} → Called S Bool → Bool
says_yes (returned on s) = on
says_yes (panicked s) = false

module _ (c : Cedar) (a : Authorization c) {Phases : Type 0} {S : Type 0} where
  -- A guarded callback returns, with the state that the callback leaves.
  record_evaluation_observation-returned :
      (sink : MetricsSink c a Phases S) (o : EvaluationObservation c a Phases) (s : S)
      → record_evaluation_observation c a sink o s
        ≡ returned tt (left_in (sink.on_evaluation_observation o s))
  unfolding record_evaluation_observation catch_unwind
  record_evaluation_observation-returned sink o s =
      elim (Called-cases (sink.on_evaluation_observation o s)) [
        | inl (x, s', e) ↦ rw e refl
        | inr (s', e) ↦ rw e refl
      ]

  metrics_enabled-returned :
      (sink : MetricsSink c a Phases S) (s : S)
      → metrics_enabled c a sink s ≡ returned (says_yes (sink.enabled s)) (left_in (sink.enabled s))
  unfolding metrics_enabled catch_unwind
  metrics_enabled-returned sink s = elim (Called-cases (sink.enabled s)) [
    | inl (on, s', e) ↦ rw e refl
    | inr (s', e) ↦ rw e refl
  ]

  -- The state of the sink after an evaluation in which it is asked whether it is enabled: that is
  -- all if it is not, or if there is no decision; else it has been shown the decision, once.
  abbrev pub Shown :
      MetricsSink c a Phases S
      → EngineState c a
      → Request c
      → Bool
      → ℕ
      → Phases
      → S
      → Result (DecisionDiagnostics c a)
      → S
      → Type 0
  Shown sink state request include duration phases s (err e) s' =
      (s' ≡ s) ⊎ (s' ≡ left_in (sink.enabled s))
  Shown sink state request include duration phases s (ok d) s' =
      (says_yes (sink.enabled s) ≡ false → s' ≡ left_in (sink.enabled s))
      × (says_yes (sink.enabled s) ≡ true
          → (result : Response) × (conclude c a state result include ≡ ok d)
            × (s'
                ≡ left_in (
                    sink.on_evaluation_observation
                      (observation_of c a state.policy.value request result d.decision duration
                        phases)
                      (left_in (sink.enabled s)))))

  report-Shown :
      (sink : MetricsSink c a Phases S) (state : EngineState c a) (request : Request c)
      (include : Bool) (duration : ℕ) (phases : Phases) (s : S) (result : Response)
      (m : Result (DecisionDiagnostics c a))
      → conclude c a state result include ≡ m
      → (s' : S) × (report c a sink
            (says_yes (sink.enabled s))
            (λ d. observation_of c a state.policy.value request result d duration phases)
            m
            (left_in (sink.enabled s))
          ≡ returned m s')
        × Shown sink state request include duration phases s m s'
  report-Shown sink state request include duration phases s result (err e) h =
      (left_in (sink.enabled s), refl, inr refl)
  report-Shown sink state request include duration phases s result (ok d) h =
      let before = left_in (sink.enabled s) in
      let o = observation_of c a state.policy.value request result d.decision duration phases in
      elim (Bool-cases (says_yes (sink.enabled s))) [
        | inl on ↦ (
          left_in (sink.on_evaluation_observation o before),
          rw (on, record_evaluation_observation-returned sink o before) refl,
          (λ off. absurd (cc (on, off)), λ _. (result, h, refl)),
        )
        | inr off ↦ (before, rw off refl, ((λ _. refl), λ on. absurd (cc (on, off))))
      ]

  -- Whatever a sink does, an evaluation that reports to it returns, and returns what the evaluation
  -- without a sink does: no panic of a callback gets out. A decision is shown exactly once to a sink
  -- that says that it is enabled, and not to another; an error is not shown.
  pub evaluate_state_observed-evaluate_state :
      (sink : MetricsSink c a Phases S) (state : EngineState c a) (request : Request c)
      (context : Option RequestContext) (include : Bool) (duration : ℕ) (phases : Phases) (s : S)
      → (s' : S) × (evaluate_state_observed c a sink state request context include duration phases s
          ≡ returned (evaluate_state c a state request context include) s')
        × Shown sink state request include duration phases s
            (evaluate_state c a state request context include)
            s'
  unfolding evaluate_state_observed evaluate_state
  evaluate_state_observed-evaluate_state sink state request context include duration phases s =
      elim (Result-cases (resolve_set c state.policy.value.sets request)) [
        | inl (e, h) ↦ rw h (s, refl, inl refl)
        | inr (set, h) ↦
            rw (h, metrics_enabled-returned sink s)
              (elim (Result-cases (prepare c a state request context)) [
                | inl (e, k) ↦ rw k (left_in (sink.enabled s), refl, inr refl)
                | inr (prepared, k) ↦ rw k (
                    report-Shown sink state request include duration phases s
                      (a.is_authorized prepared.0 set prepared.1) _ refl)
              ])
      ]

module _ (c : Cedar) (a : Authorization c) where
  -- The ids that a decision with diagnostics shows to its caller.
  abbrev pub caller_ids : DecisionDiagnostics c a → List String
  caller_ids d = elim (permit_policies c a d.decision) [
    | some policies ↦ Decision.ids c a policies
    | none ↦ d.matched_forbid_policy_ids
  ]

  module _ {Phases : Type 0} where
    abbrev stats_of :
        EngineState c a
        → Request c
        → Response
        → ℕ
        → Phases
        → DecisionDiagnostics c a
        → EvaluationStats
    stats_of state request result duration phases d =
        to_owned_stats c a
          (observation_of c a state.policy.value request result d.decision duration phases)

    abbrev Agrees :
        EngineState c a → Request c → Response → ℕ → Phases → DecisionDiagnostics c a → Type 0
    Agrees state request result duration phases d =
        let stats = stats_of state request result duration phases d in
        (stats.allowed ≡ is_allowed c a d.decision) × (stats.matched_policies ≡ caller_ids d)

    conclude-Agrees :
        (state : EngineState c a) (request : Request c) (decided : CedarDecision)
        (reason : List String) (duration : ℕ) (phases : Phases) (d : DecisionDiagnostics c a)
        → conclude c a state (record { decision = decided; reason = reason }) true ≡ ok d
        → Agrees state request (record { decision = decided; reason = reason }) duration phases d
    unfolding conclude from_cedar is_allowed permit_policies to_owned_stats observation_of
        matched_policy_ids extract_permit_policies extract_forbid_policy_ids Decision.ids
    conclude-Agrees state request allow reason duration phases d h =
        let result : Response = record { decision = allow; reason = reason } in
        let policies = extract_permit_policies c a state.policy.value result in
        let v = state_version c a state in
        let (decision, made, same) =
          >>=-eq-ok (from_cedar c a allow policies v)
            (λ x. ok (record { decision = x; matched_forbid_policy_ids = [] })) h in
        let own : allow_with policies v ≡ decision =
          ok-inj
            (fail_if-eq-ok (has_none c a policies) eval_error (ok (allow_with policies v))
              made).1 in
        subst (Agrees state request result duration phases)
          (ap (λ x. record { decision = x; matched_forbid_policy_ids = [] }) own ∙ ok-inj same)
          (refl, refl)
    conclude-Agrees state request deny reason duration phases d h =
        subst (Agrees state request (record { decision = deny; reason = reason }) duration phases)
          (ok-inj h) (refl, refl)

    -- The owned statistics of an evaluation agree with the decision and the diagnostics that the
    -- caller gets: whether it was allowed, and the sorted ids.
    pub to_owned_stats-conclude :
        (state : EngineState c a) (request : Request c) (result : Response) (duration : ℕ)
        (phases : Phases) (d : DecisionDiagnostics c a)
        → conclude c a state result true ≡ ok d
        → let stats =
            to_owned_stats c a
              (observation_of c a state.policy.value request result d.decision duration phases) in
          (stats.allowed ≡ is_allowed c a d.decision) × (stats.matched_policies ≡ caller_ids d)
    to_owned_stats-conclude state request result duration phases d h =
        conclude-Agrees state request result.decision result.reason duration phases d h
