-- ===== src/Tests/Reports.antt =====
-- Evaluations that are reported to a sink, and evaluations of compiled policies.
use treetop_core.Prelude.{
  Bool-cases, arith, inl, inr, ℕ, suc, List, [], ◌∷◌, none, true, ◌≡◌, refl, Member, string_eq,
}
use treetop_core.Error.{ok}
use treetop_core.Cedar.Syntax.{permit}
use treetop_core.Cedar.Authorization.{Response, allow}
use treetop_core.Types.Resource.{cedar_attr}
use treetop_core.Partition.{resolve_set}
use treetop_core.Tests.Labels.{named_host}
use treetop_core.Types.Attr.{build_effective_context}
use treetop_core.Loader.{compile_policy, precompute_permit_policies, precompute_forbid_policy_ids}
use treetop_core.Loader.Metadata.{Effect-cases}
use treetop_core.Engine.Snapshot.{
  PolicySnapshot, EngineState, from_policy_text_with_schema_and_stores,
}
use treetop_core.Engine.Evaluate.Total.{GivesReasons, evaluate_state_total}
use treetop_core.Decision.{
  new_permit_policy, extract_annotation_id, id_of_json, id_of_lines, id_of_line,
  DecisionDiagnostics, is_allowed,
}
use treetop_core.Engine.Evaluate.{evaluate_state, conclude, prepare, request_groups}
use treetop_core.Metrics.{
  returned, panicked, MetricsSink, evaluate_state_observed, to_owned_stats, observation_of,
}
use treetop_core.Metrics.Reported.{
  Shown, evaluate_state_observed-evaluate_state, to_owned_stats-conclude, caller_ids,
}
use treetop_core.Tests.Instance.{
  permit_all, SamplePolicy, has_permit, ids_of, respond, distinct, sample_cedar,
  sample_authorization,
}
use treetop_core.Tests.Engines.{sample_snapshot, sample_state, sample_request, sample_outcome}

-- A sink that counts, and panics at every evaluation.
abbrev failing_sink : MetricsSink sample_cedar sample_authorization ℕ ℕ
failing_sink = record {
  enabled = λ s. returned true s;
  on_evaluation_observation = λ o s. panicked (suc s);
  on_evaluation = λ stats s. returned tt s;
  on_evaluation_phases = λ stats phases s. returned tt s;
  on_reload = λ time s. returned tt s;
}

evaluate_state_observed-evaluate_state_example :
    (s' : ℕ) × (evaluate_state_observed sample_cedar sample_authorization failing_sink sample_state
        sample_request none true 7 5 0
      ≡ returned
          (evaluate_state sample_cedar sample_authorization sample_state sample_request none true)
          s')
    × Shown sample_cedar sample_authorization failing_sink sample_state sample_request true 7 5 0
        (evaluate_state sample_cedar sample_authorization sample_state sample_request none true)
        s'
evaluate_state_observed-evaluate_state_example =
    evaluate_state_observed-evaluate_state sample_cedar sample_authorization failing_sink
      sample_state sample_request none true 7 5 0

-- The panicking sink was shown one evaluation.
failing_sink-run :
    evaluate_state_observed sample_cedar sample_authorization failing_sink sample_state
      sample_request none true 7 5 0
    ≡ returned (ok sample_outcome) 1
unfolding evaluate_state_observed build_effective_context
failing_sink-run = refl

abbrev sample_response : Response
sample_response = record { decision = allow; reason = "p1" ∷ [] }

sample_outcome-conclude :
    conclude sample_cedar sample_authorization sample_state sample_response true ≡ ok sample_outcome
unfolding conclude
sample_outcome-conclude = refl

abbrev microseconds : ℕ
microseconds = 5

to_owned_stats-conclude_example :
    let stats = to_owned_stats sample_cedar sample_authorization (
      observation_of sample_cedar sample_authorization sample_state.policy.value sample_request
        sample_response sample_outcome.decision 7 microseconds) in
    (stats.allowed ≡ is_allowed sample_cedar sample_authorization sample_outcome.decision)
    × (stats.matched_policies ≡ caller_ids sample_cedar sample_authorization sample_outcome)
to_owned_stats-conclude_example =
    to_owned_stats-conclude sample_cedar sample_authorization sample_state sample_request
      sample_response 7 microseconds sample_outcome sample_outcome-conclude

-- The sample authorizer allows where some policy permits, and names all policies.
has_permit-Member :
    (ps : List SamplePolicy)
    → has_permit ps ≡ true
    → (p : SamplePolicy) × Member p ps × (p.effect ≡ permit) × Member p.id (ids_of ps)
has_permit-Member [] h = absurd (ground arith)
has_permit-Member (p ∷ ps) h = elim (Effect-cases p.effect) [
  | inl e ↦ (p, inl refl, e, inl refl)
  | inr e ↦ let (q, m, own, named) = has_permit-Member ps (rw e at h) in (q, inr m, own, inr named)
]

respond-reasons :
    (ps : List SamplePolicy)
    → (respond ps).decision ≡ allow
    → (p : SamplePolicy) × Member p ps × (p.effect ≡ permit) × Member p.id (respond ps).reason
respond-reasons ps h = elim (Bool-cases (has_permit ps)) [
  | inl e ↦ rw e (has_permit-Member ps e)
  | inr e ↦ absurd (cc (rw e at h))
]

sample_authorization-GivesReasons : GivesReasons sample_cedar sample_authorization
unfolding GivesReasons
sample_authorization-GivesReasons =
    λ request set entities allowed. respond-reasons (distinct set) allowed

abbrev compiled : PolicySnapshot sample_cedar sample_authorization
compiled = record sample_snapshot { revision = record { hash = ""; loaded_at = "noon" } }

compiled-from_policy_text :
    from_policy_text_with_schema_and_stores sample_cedar sample_authorization "p1" none none "noon"
    ≡ ok compiled
unfolding from_policy_text_with_schema_and_stores compile_policy precompute_permit_policies
    new_permit_policy precompute_forbid_policy_ids extract_annotation_id id_of_json id_of_lines
    id_of_line
compiled-from_policy_text = refl

abbrev compiled_state : EngineState sample_cedar sample_authorization
compiled_state = record {
  policy = record { address = 0; value = compiled };
  label_registry = none;
  generation = 1;
}

abbrev compiled_request : sample_authorization.CedarRequest × sample_authorization.Entities
unfolding cedar_attr
compiled_request = (
  ("admins", named_host.uid.1),
  (("Group", "admins"), λ k. none) ∷ (named_host.uid, cedar_attr sample_cedar named_host) ∷ [],
)

compiled_state-prepare :
    prepare sample_cedar sample_authorization compiled_state sample_request none
    ≡ ok compiled_request
unfolding prepare build_effective_context request_groups
compiled_state-prepare = refl

compiled_state-resolve_set :
    resolve_set sample_cedar compiled.sets sample_request ≡ ok (permit_all "p1" "App::Host" ∷ [])
unfolding resolve_set
compiled_state-resolve_set = refl

evaluate_state_total_example :
    (d : DecisionDiagnostics sample_cedar sample_authorization) × (evaluate_state sample_cedar
        sample_authorization compiled_state sample_request none true
      ≡ ok d)
evaluate_state_total_example =
    evaluate_state_total sample_cedar sample_authorization "p1" none none "noon" compiled_state
      sample_request none true (permit_all "p1" "App::Host" ∷ []) compiled_request
      sample_authorization-GivesReasons compiled-from_policy_text compiled_state-resolve_set
      compiled_state-prepare
