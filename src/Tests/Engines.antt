-- ===== src/Tests/Engines.antt =====
-- Evaluations, and two threads that publish to one engine.
use treetop_core.Prelude.{
  ℕ, zero, suc, ◌≤◌, String, List, [], ◌∷◌, none, some, true, false, ◌≡◌, ◌≢◌, ◌↔◌, refl, Member,
  string_eq, get_elem?, set, subst,
}
use treetop_core.Prelude.Assoc.{get}
use treetop_core.Prelude.Sorting.{IsStrict}
use treetop_core.Error.{ok, ◌>>=◌}
use treetop_core.Cedar.Authorization.{allow}
use treetop_core.Types.Identity.{group}
use treetop_core.Types.Attr.{build_effective_context}
use treetop_core.Types.Resource.{Request}
use treetop_core.Partition.{monolithic, resolve_set, layout_of}
use treetop_core.Decision.{
  new_permit_policy, extract_annotation_id, id_of_json, id_of_lines, id_of_line, PermitPolicy,
  DecisionDiagnostics, allow_with, is_allowed, permit_policies,
}
use treetop_core.Loader.{compile_policy, precompute_permit_policies, precompute_forbid_policy_ids}
use treetop_core.Engine.Snapshot.{PolicySnapshot, Arc, EngineState, next_generation, u64_max}
use treetop_core.Engine.Evaluate.{prepare, evaluate_state}
use treetop_core.Engine.Evaluate.Outcome.{evaluate_state_sound, evaluate_state-include}
use treetop_core.Engine.Evaluate.Trusted.{
  with_resource, evaluate_state-unforgeable, evaluate_state-forbids,
}
use treetop_core.Engine.Publish.{
  Thread, labelling, reloading, reload_compiled, finished, step_thread, from_snapshot, World, step,
  Reachable, stay, more,
}
use treetop_core.Engine.Publish.Reload.{
  start, IsInitial, AreInitial, layout_constant, reload-current, generation-Reachable,
  generation_of,
}
use treetop_core.Tests.Instance.{SamplePolicy, sample_cedar, sample_authorization, permit_all}
use treetop_core.Tests.Labels.{
  sample_registry, named_host, forged_host, named_host-scope, named-forged,
}

abbrev pub sample_permit : PermitPolicy sample_cedar sample_authorization
sample_permit = record { literal = "p1"; json = "p1"; annotation_id = none; cedar_id = "p1" }

abbrev pub sample_snapshot : PolicySnapshot sample_cedar sample_authorization
sample_snapshot = record {
  sets = monolithic (permit_all "p1" "App::Host" ∷ []);
  revision = record { hash = "0a"; loaded_at = "noon" };
  permit_policies = ("p1", sample_permit) ∷ [];
  forbid_policy_ids = [];
  schema = none;
}

abbrev pub sample_state : EngineState sample_cedar sample_authorization
sample_state = record {
  policy = record { address = 0; value = sample_snapshot };
  label_registry = some sample_registry;
  generation = 2;
}

abbrev pub sample_request : Request sample_cedar
sample_request = record {
  principal = group (record { id = "admins"; namespace = []; uid = ("Group", "admins") });
  action = record { id = "read"; namespace = []; uid = ("Action", "read") };
  resource = named_host;
}

abbrev pub sample_outcome : DecisionDiagnostics sample_cedar sample_authorization
sample_outcome = record {
  decision =
      allow_with (sample_permit ∷ [])
        (record { hash = "0a"; loaded_at = "noon"; label_set = some "v1"; generation = 2 });
  matched_forbid_policy_ids = [];
}

pub sample_outcome-evaluate :
    evaluate_state sample_cedar sample_authorization sample_state sample_request none true
    ≡ ok sample_outcome
unfolding evaluate_state build_effective_context
sample_outcome-evaluate = refl

evaluate_state_sound_example :
    (set : List SamplePolicy) × (prepared : sample_authorization.CedarRequest
      × sample_authorization.Entities)
    × (resolve_set sample_cedar sample_snapshot.sets sample_request ≡ ok set)
    × (prepare sample_cedar sample_authorization sample_state sample_request none ≡ ok prepared)
    × ((is_allowed sample_cedar sample_authorization sample_outcome.decision ≡ true)
        ↔ ((sample_authorization.is_authorized prepared.0 set prepared.1).decision ≡ allow))
    × (is_allowed sample_cedar sample_authorization sample_outcome.decision ≡ true
        → (ps : List (PermitPolicy sample_cedar sample_authorization)) × (permit_policies
              sample_cedar sample_authorization sample_outcome.decision
            ≡ some ps)
          × (ps ≢ [])
          × ((p : PermitPolicy sample_cedar sample_authorization)
              → Member p ps
              → (id : String) × Member id
                  (sample_authorization.is_authorized prepared.0 set prepared.1).reason
                × (get id sample_snapshot.permit_policies ≡ some p)))
evaluate_state_sound_example =
    evaluate_state_sound sample_cedar sample_authorization sample_state sample_request none true
      sample_outcome sample_outcome-evaluate

evaluate_state-include_example :
    (evaluate_state sample_cedar sample_authorization sample_state sample_request none true >>= λ d.
    ok d.decision)
    ≡ (evaluate_state sample_cedar sample_authorization sample_state sample_request none false
        >>= λ d. ok d.decision)
evaluate_state-include_example =
    evaluate_state-include sample_cedar sample_authorization sample_state sample_request none

evaluate_state-forbids_example :
    IsStrict sample_cedar.id_order sample_outcome.matched_forbid_policy_ids
    × (sample_outcome.matched_forbid_policy_ids ≢ []
        → (true ≡ true)
          × (is_allowed sample_cedar sample_authorization sample_outcome.decision ≢ true))
evaluate_state-forbids_example =
    evaluate_state-forbids sample_cedar sample_authorization sample_state sample_request none true
      sample_outcome sample_outcome-evaluate

evaluate_state-unforgeable_example :
    evaluate_state sample_cedar sample_authorization sample_state sample_request none true
    ≡ evaluate_state sample_cedar sample_authorization sample_state
        (with_resource sample_cedar sample_authorization sample_request forged_host)
        none
        true
evaluate_state-unforgeable_example =
    evaluate_state-unforgeable sample_cedar sample_authorization sample_state sample_request none
      true forged_host sample_registry refl named_host-scope named-forged

-- One thread reloads while another installs labels.
abbrev pub sample_threads : List (Thread sample_cedar sample_authorization)
sample_threads = reloading "p1" ∷ labelling sample_registry ∷ []

abbrev pub first_world : World sample_cedar sample_authorization
first_world = start sample_cedar sample_authorization sample_snapshot sample_threads

pub some-inj : {A : Type 0} {x y : A} → some x ≡ some y → x ≡ y
some-inj h = cc h

pub sample_threads-AreInitial : AreInitial sample_cedar sample_authorization sample_threads
sample_threads-AreInitial zero t h =
    subst (IsInitial sample_cedar sample_authorization) (some-inj h) tt
sample_threads-AreInitial (suc zero) t h =
    subst (IsInitial sample_cedar sample_authorization) (some-inj h) tt
sample_threads-AreInitial (suc (suc i)) t h = cc h

-- What a step of a thread makes of a world.
abbrev after :
    ℕ
    → Thread sample_cedar sample_authorization
    → World sample_cedar sample_authorization
    → World sample_cedar sample_authorization
after i t w = record {
  cell = (step_thread sample_cedar sample_authorization "noon" t w.cell).1;
  threads = set w.threads i (step_thread sample_cedar sample_authorization "noon" t w.cell).0;
}

-- The reload compiles, the labels are installed, and the first attempt to publish fails.
abbrev pub compiled_thread : Thread sample_cedar sample_authorization
compiled_thread =
    (step_thread sample_cedar sample_authorization "noon" (reloading "p1") first_world.cell).0

abbrev pub compiled_world : World sample_cedar sample_authorization
compiled_world = after 0 (reloading "p1") first_world

abbrev pub labelled_world : World sample_cedar sample_authorization
labelled_world = after 1 (labelling sample_registry) compiled_world

abbrev pub retried_world : World sample_cedar sample_authorization
retried_world = after 0 compiled_thread labelled_world

retried_world-Reachable : Reachable sample_cedar sample_authorization first_world retried_world
retried_world-Reachable =
    more
      (more (more (stay first_world) (step "noon" 0 (reloading "p1") first_world refl))
        (step "noon" 1 (labelling sample_registry) compiled_world refl))
      (step "noon" 0 compiled_thread labelled_world refl)

abbrev compiled_snapshot : Arc (PolicySnapshot sample_cedar sample_authorization)
compiled_snapshot = record {
  address = 2;
  value = record sample_snapshot { revision = record { hash = ""; loaded_at = "noon" } };
}

-- The second attempt, which stands before its publication.
abbrev waiting : Thread sample_cedar sample_authorization
waiting = reload_compiled "p1" labelled_world.cell.current compiled_snapshot

waiting-at : get_elem? retried_world.threads 0 ≡ some waiting
unfolding step_thread from_snapshot compile_policy precompute_permit_policies new_permit_policy
    precompute_forbid_policy_ids extract_annotation_id id_of_json id_of_lines id_of_line
waiting-at = refl

waiting-finished :
    (step_thread sample_cedar sample_authorization "noon" waiting retried_world.cell).0 ≡ finished
unfolding step_thread from_snapshot compile_policy precompute_permit_policies
waiting-finished = refl

abbrev replaced : EngineState sample_cedar sample_authorization
replaced = retried_world.cell.current.value

abbrev reloaded : EngineState sample_cedar sample_authorization
reloaded =
    (step_thread sample_cedar sample_authorization "noon" waiting
      retried_world.cell).1.current.value

reload-current_example :
    (reloaded.policy ≡ compiled_snapshot)
    × (reloaded.policy.value.schema ≡ replaced.policy.value.schema)
    × (reloaded.label_registry ≡ replaced.label_registry)
    × (reloaded.generation ≡ next_generation replaced.generation)
reload-current_example =
    reload-current sample_cedar sample_authorization sample_snapshot sample_threads retried_world
      sample_threads-AreInitial retried_world-Reachable 0 "noon" "p1" labelled_world.cell.current
      compiled_snapshot waiting-at waiting-finished

layout_constant_example :
    layout_of sample_cedar retried_world.cell.current.value.policy.value.sets
    ≡ layout_of sample_cedar sample_snapshot.sets
layout_constant_example =
    layout_constant sample_cedar sample_authorization sample_snapshot sample_threads retried_world
      sample_threads-AreInitial retried_world-Reachable

generation-Reachable_example :
    (generation_of sample_cedar sample_authorization
        (start sample_cedar sample_authorization sample_snapshot sample_threads)
      ≡ 1)
    × (1 ≤ first_world.cell.current.value.generation)
    × (first_world.cell.current.value.generation ≤ retried_world.cell.current.value.generation)
    × (retried_world.cell.current.value.generation ≤ u64_max)
generation-Reachable_example =
    generation-Reachable sample_cedar sample_authorization sample_snapshot sample_threads
      first_world retried_world sample_threads-AreInitial (stay first_world) retried_world-Reachable
