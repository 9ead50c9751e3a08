-- ===== src/Metrics.antt =====
-- src/metrics.rs: what an evaluation shows to a sink, how the callbacks are guarded, and the part of
-- `evaluate_state` of src/engine.rs that reports. A sink is its callbacks over its own state; a
-- callback that panics leaves the state that it had reached.
pub mod Reported
use treetop_core.Prelude.{
  string_eq, ℕ, String, List, [], ◌∷◌, map, Option, none, some, Bool, true, false, not,
  if◌then◌else◌,
}
use treetop_core.Prelude.Sorting.{sort, dedup}
use treetop_core.Error.{Result, ok, err, ◌>>=◌}
use treetop_core.Cedar.{Cedar}
use treetop_core.Cedar.Authorization.{Authorization, Response, CedarDecision, allow, deny}
use treetop_core.Types.Identity.{Action}
use treetop_core.Types.Attr.{RequestContext}
use treetop_core.Types.Resource.{Request}
use treetop_core.Types.Parse.{fmt_qualified}
use treetop_core.Partition.{resolve_set}
use treetop_core.Decision.{PermitPolicy, Decision, permit_policies, DecisionDiagnostics}
use treetop_core.Decision
use treetop_core.Engine.Snapshot.{PolicySnapshot, EngineState}
use treetop_core.Engine.Evaluate.{filter_map, prepare, conclude}

-- `EvaluationStats`; a duration is a number of nanoseconds.
pub record EvaluationStats : Type 0 where
  pub duration : ℕ
  pub allowed : Bool
  pub action_id : String
  pub matched_policies : List String

-- How a call that may run a sink's callbacks ends: it returns, or it unwinds.
pub data Called (S A : Type 0) : Type 0 where
  returned : A → S → Called S A
  panicked : S → Called S A

module _ {S A : Type 0} where
  -- The sink's state that a call leaves.
  abbrev pub left_in : Called S A → S
  left_in (returned x s) = s
  left_in (panicked s) = s

  -- A panic skips what follows.
  abbrev pub and_then : {B : Type 0} → Called S A → (A → S → Called S B) → Called S B
  and_then (returned x s) next = next x s
  and_then (panicked s) next = panicked s

  -- `std::panic::catch_unwind`: `none` stands for the `Err` of a panic.
  unfoldable pub catch_unwind : Called S A → Called S (Option A)
  catch_unwind (returned x s) = returned (some x) s
  catch_unwind (panicked s) = returned none s

  -- `let _ = …`
  abbrev discard : Option A → S → Called S (Unit {0})
  discard _ s = returned tt s

abbrev unwrap_or_false : {S : Type 0} → Option Bool → S → Called S Bool
unwrap_or_false none s = returned false s
unwrap_or_false (some on) s = returned on s

module _ (c : Cedar) (a : Authorization c) where
  -- `MatchedPolicySource`; a deny is read through its reasons and the snapshot's table.
  pub data MatchedPolicySource : Type 0 where
    allow_source : List (PermitPolicy c a) → MatchedPolicySource
    deny_source : List String → List (String × String) → MatchedPolicySource

  -- The phases are floating-point numbers, which are passed on and not read.
  pub record EvaluationObservation (Phases : Type 0) : Type 0 where
    pub duration : ℕ
    pub allowed : Bool
    pub action : Action c
    pub phases : Phases
    pub matched_policies : MatchedPolicySource

  abbrev source_ids : MatchedPolicySource → List String
  source_ids (allow_source policies) = map (Decision.id c a) policies
  source_ids (deny_source reasons policy_ids) = filter_map c a reasons policy_ids

  module _ {Phases : Type 0} where
    unfoldable pub matched_policy_ids : EvaluationObservation Phases → List String
    unfolding filter_map Decision.id
    matched_policy_ids o = source_ids o.matched_policies

    unfoldable pub to_owned_stats : EvaluationObservation Phases → EvaluationStats
    unfolding matched_policy_ids fmt_qualified
    to_owned_stats o =
        let sorted = sort c.id_order.le (matched_policy_ids o) in
        record {
          duration = o.duration;
          allowed = o.allowed;
          action_id = fmt_qualified c o.action;
          matched_policies = if not o.allowed then dedup sorted else sorted;
        }

  abbrev pub matched_source :
      PolicySnapshot c a → Response → Option (List (PermitPolicy c a)) → MatchedPolicySource
  matched_source snapshot result none = deny_source result.reason snapshot.forbid_policy_ids
  matched_source snapshot result (some policies) = allow_source policies

  abbrev pub was_allowed : CedarDecision → Bool
  was_allowed allow = true
  was_allowed deny = false

  module _ {Phases : Type 0} where
    -- The observation of an evaluation; the timers' readings are arguments.
    unfoldable pub observation_of :
        PolicySnapshot c a
        → Request c
        → Response
        → Decision c a
        → ℕ
        → Phases
        → EvaluationObservation Phases
    unfolding permit_policies
    observation_of snapshot request result decision duration phases = record {
      duration = duration;
      allowed = was_allowed result.decision;
      action = request.action;
      phases = phases;
      matched_policies = matched_source snapshot result (permit_policies c a decision);
    }

  -- `MetricsSink`, over the sink's state.
  pub record MetricsSink (Phases S : Type 0) : Type 0 where
    pub enabled : S → Called S Bool
    pub on_evaluation_observation : EvaluationObservation Phases → S → Called S (Unit {0})
    pub on_evaluation : EvaluationStats → S → Called S (Unit {0})
    pub on_evaluation_phases : EvaluationStats → Phases → S → Called S (Unit {0})
    pub on_reload : ℕ → S → Called S (Unit {0})

  module _ {Phases S : Type 0} where
    -- The adapter that is the default of `on_evaluation_observation`.
    unfoldable pub default_observation :
        (EvaluationStats → S → Called S (Unit {0}))
        → (EvaluationStats → Phases → S → Called S (Unit {0}))
        → EvaluationObservation Phases
        → S
        → Called S (Unit {0})
    unfolding to_owned_stats
    default_observation on_evaluation on_evaluation_phases o s =
        and_then (on_evaluation (to_owned_stats o) s)
          (λ _ s'. on_evaluation_phases (to_owned_stats o) o.phases s')

    -- `NoOpSink`
    abbrev pub no_op_sink : MetricsSink Phases S
    no_op_sink = record {
      enabled = λ s. returned false s;
      on_evaluation_observation =
          default_observation (λ stats s. returned tt s) (λ stats phases s. returned tt s);
      on_evaluation = λ stats s. returned tt s;
      on_evaluation_phases = λ stats phases s. returned tt s;
      on_reload = λ time s. returned tt s;
    }

    -- `metrics_enabled`: a panic counts as no.
    unfoldable pub metrics_enabled : MetricsSink Phases S → S → Called S Bool
    unfolding catch_unwind
    metrics_enabled sink s = and_then (catch_unwind (sink.enabled s)) unwrap_or_false

    unfoldable pub record_evaluation_observation :
        MetricsSink Phases S → EvaluationObservation Phases → S → Called S (Unit {0})
    unfolding catch_unwind
    record_evaluation_observation sink o s =
        and_then (catch_unwind (sink.on_evaluation_observation o s)) discard

    unfoldable pub record_reload : MetricsSink Phases S → ℕ → S → Called S (Unit {0})
    unfolding catch_unwind
    record_reload sink time s = and_then (catch_unwind (sink.on_reload time s)) discard

    -- `if prepared.metrics_enabled { … }`
    abbrev pub observe_if :
        MetricsSink Phases S → Bool → EvaluationObservation Phases → S → Called S (Unit {0})
    observe_if sink on o s = if on then record_evaluation_observation sink o s else returned tt s

    -- The end of `evaluate_state`: an error is returned before anything is recorded.
    abbrev pub report :
        MetricsSink Phases S
        → Bool
        → (Decision c a → EvaluationObservation Phases)
        → Result (DecisionDiagnostics c a)
        → S
        → Called S (Result (DecisionDiagnostics c a))
    report sink on observe (err e) s = returned (err e) s
    report sink on observe (ok d) s =
        and_then (observe_if sink on (observe d.decision) s) (λ _ s'. returned (ok d) s')

    -- After `metrics_enabled`, the first call of `prepare`.
    abbrev pub after_prepare :
        MetricsSink Phases S
        → EngineState c a
        → c.PolicySet
        → Request c
        → Bool
        → ℕ
        → Phases
        → Result (a.CedarRequest × a.Entities)
        → Bool
        → S
        → Called S (Result (DecisionDiagnostics c a))
    after_prepare sink state set request include duration phases (err e) on s = returned (err e) s
    after_prepare sink state set request include duration phases (ok prepared) on s =
        let result = a.is_authorized prepared.0 set prepared.1 in
        report sink on (λ d. observation_of state.policy.value request result d duration phases)
          (conclude c a state result include) s

    abbrev pub after_resolve :
        MetricsSink Phases S
        → EngineState c a
        → Request c
        → Option RequestContext
        → Bool
        → ℕ
        → Phases
        → S
        → Result c.PolicySet
        → Called S (Result (DecisionDiagnostics c a))
    after_resolve sink state request context include duration phases s (err e) = returned (err e) s
    after_resolve sink state request context include duration phases s (ok set) =
        and_then (metrics_enabled sink s) (
          after_prepare sink state set request include duration phases
            (prepare c a state request context))

    -- `evaluate_state` with the sink that is loaded when the request is prepared.
    unfoldable pub evaluate_state_observed :
        MetricsSink Phases S
        → EngineState c a
        → Request c
        → Option RequestContext
        → Bool
        → ℕ
        → Phases
        → S
        → Called S (Result (DecisionDiagnostics c a))
    unfolding resolve_set prepare conclude metrics_enabled record_evaluation_observation
        observation_of
    evaluate_state_observed sink state request context include duration phases s =
        after_resolve sink state request context include duration phases s
          (resolve_set c state.policy.value.sets request)
