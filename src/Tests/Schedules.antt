-- ===== src/Tests/Schedules.antt =====
-- Schedules of two threads on one engine: how long they are, and what a generation and a mode keep.
use treetop_core.Prelude.{
  ℕ, zero, suc, ◌≤◌, ◌+◌, ◌*◌, [], ◌∷◌, none, some, true, false, ◌≡◌, refl, get_elem?, subst, arith,
  length,
}
use treetop_core.Loader.{compile_policy, precompute_permit_policies}
use treetop_core.Engine.Publish.{
  Thread, labelling, reloading, World, step_thread, from_snapshot, Reachable, stay, more, step,
}
use treetop_core.Engine.Publish.Termination.{
  Run, none_yet, then_step, Run-bound, Run-completes, AllReturned,
}
use treetop_core.Engine.Publish.Identity.{generation_identifies}
use treetop_core.Engine.Publish.Version.{Describes, version_identifies}
use treetop_core.Error.{ok}
use treetop_core.Types.Attr.{build_effective_context}
use treetop_core.Decision.{DecisionDiagnostics, allow_with, version}
use treetop_core.Engine.Evaluate.{evaluate_state}
use treetop_core.Engine.Session.Mode.{schema_free, HasMethod, mode_constant, HasMode}
use treetop_core.Tests.Instance.{sample_cedar, sample_authorization}
use treetop_core.Tests.Labels.{sample_registry}
use treetop_core.Tests.Engines.{
  sample_snapshot, sample_permit, sample_request, sample_threads, first_world, compiled_world,
  compiled_thread, labelled_world, retried_world, sample_threads-AreInitial, some-inj,
}

retried_world-Run : Run sample_cedar sample_authorization 3 first_world retried_world
unfolding step_thread from_snapshot compile_policy precompute_permit_policies
retried_world-Run =
    then_step "noon" 0 compiled_thread labelled_world
      (then_step "noon" 1 (labelling sample_registry) compiled_world
        (then_step "noon" 0 (reloading "p1") first_world (none_yet first_world) refl refl) refl
        refl)
      refl refl

Run-bound_example : 3 ≤ length first_world.threads * (2 * length first_world.threads + 3)
Run-bound_example =
    Run-bound sample_cedar sample_authorization 3 first_world retried_world retried_world-Run

Run-completes_example :
    (m : ℕ) × (u : World sample_cedar sample_authorization) × Run sample_cedar sample_authorization
      m first_world u
    × AllReturned sample_cedar sample_authorization u
Run-completes_example = Run-completes sample_cedar sample_authorization first_world

-- The reload has compiled, and nothing is published yet.
compiled_world-Reachable : Reachable sample_cedar sample_authorization first_world compiled_world
compiled_world-Reachable = more (stay first_world) (step "noon" 0 (reloading "p1") first_world refl)

compiled_world-generation :
    first_world.cell.current.value.generation ≡ compiled_world.cell.current.value.generation
unfolding step_thread from_snapshot compile_policy precompute_permit_policies
compiled_world-generation = refl

generation_identifies_example : compiled_world.cell.current ≡ first_world.cell.current
unfolding from_snapshot
generation_identifies_example =
    generation_identifies sample_cedar sample_authorization sample_snapshot sample_threads
      first_world compiled_world sample_threads-AreInitial (stay first_world)
      compiled_world-Reachable compiled_world-generation (omega arith)

abbrev first_outcome : DecisionDiagnostics sample_cedar sample_authorization
first_outcome = record {
  decision =
      allow_with (sample_permit ∷ [])
        (record { hash = "0a"; loaded_at = "noon"; label_set = none; generation = 1 });
  matched_forbid_policy_ids = [];
}

first_outcome-evaluate :
    evaluate_state sample_cedar sample_authorization first_world.cell.current.value sample_request
      none true
    ≡ ok first_outcome
unfolding evaluate_state build_effective_context from_snapshot
first_outcome-evaluate = refl

compiled_world-evaluate :
    evaluate_state sample_cedar sample_authorization compiled_world.cell.current.value
      sample_request none false
    ≡ ok first_outcome
unfolding evaluate_state build_effective_context step_thread from_snapshot compile_policy
    precompute_permit_policies
compiled_world-evaluate = refl

version_identifies_example :
    Describes sample_cedar sample_authorization
      (version sample_cedar sample_authorization first_outcome.decision)
      first_world.cell.current.value
    × (compiled_world.cell.current ≡ first_world.cell.current)
unfolding version
version_identifies_example =
    version_identifies sample_cedar sample_authorization sample_snapshot sample_threads first_world
      compiled_world sample_request sample_request none none true false first_outcome first_outcome
      sample_threads-AreInitial (stay first_world) compiled_world-Reachable first_outcome-evaluate
      compiled_world-evaluate refl (omega arith)

sample_threads-HasMethod :
    (i : ℕ) (t : Thread sample_cedar sample_authorization)
    → get_elem? sample_threads i ≡ some t
    → HasMethod sample_cedar sample_authorization schema_free t
sample_threads-HasMethod zero t h =
    subst (HasMethod sample_cedar sample_authorization schema_free) (some-inj h) tt
sample_threads-HasMethod (suc zero) t h =
    subst (HasMethod sample_cedar sample_authorization schema_free) (some-inj h) tt
sample_threads-HasMethod (suc (suc i)) t h = cc h

sample_snapshot-HasMode : HasMode schema_free sample_snapshot.schema
unfolding HasMode
sample_snapshot-HasMode = refl

mode_constant_example : HasMode schema_free compiled_world.cell.current.value.policy.value.schema
mode_constant_example =
    mode_constant sample_cedar sample_authorization schema_free sample_snapshot sample_threads
      compiled_world sample_snapshot-HasMode sample_threads-AreInitial sample_threads-HasMethod
      compiled_world-Reachable
