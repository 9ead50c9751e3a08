-- ===== src/Engine/Publish.antt =====
-- Publication of engine states in src/engine.rs: the shared cell (`ArcSwap<EngineState>`), its
-- atomic operations, and threads that call `set_label_registry`, `reload_from_str` and
-- `reload_from_str_with_schema` on it. An `Arc` that a thread holds is not freed, so addresses are
-- numbers that are handed out once.
pub mod Invariant
pub mod Preserved
pub mod Reload
pub mod Termination
pub mod Identity
pub mod Version
pub mod Alone
use treetop_core.Prelude.{
  ℕ, suc, String, List, [], ◌∷◌, Option, none, some, Bool, true, false, ◌≡◌, nat_beq, get_elem?,
  set, if◌then◌else◌,
}
use treetop_core.Error.{PolicyError, Result, ok, err}
use treetop_core.Cedar.{Cedar}
use treetop_core.Cedar.Authorization.{Authorization}
use treetop_core.Labels.{LabelRegistry}
use treetop_core.Partition.{layout_of}
use treetop_core.Engine.Snapshot.{
  PolicySnapshot, Arc, EngineState, next_generation, from_policy_text_with_schema_and_stores,
}

module _ (c : Cedar) (a : Authorization c) where
  open a use {Schema}

  abbrev pub Snapshot : Type 0
  Snapshot = Arc (PolicySnapshot c a)

  abbrev pub State : Type 0
  State = Arc (EngineState c a)

  -- `inner`, with the next address that is free.
  pub record Cell : Type 0 where
    pub current : State
    pub next_address : ℕ

  -- `Arc::new(state)`, then the swap.
  abbrev pub publish : EngineState c a → Cell → Cell
  publish s cell = record {
    current = record { address = cell.next_address; value = s };
    next_address = suc cell.next_address;
  }

  unfoldable pub from_snapshot : PolicySnapshot c a → Cell
  from_snapshot snapshot = record {
    current = record {
      address = 1;
      value = record {
        policy = record { address = 0; value = snapshot };
        label_registry = none;
        generation = 1;
      };
    };
    next_address = 2;
  }

  -- `rcu`: its closure reads the state and is run again until the compare-and-swap finds that state
  -- unchanged. The run that succeeds is the one step here, and retries are no steps.
  unfoldable pub set_label_registry : LabelRegistry c → Cell → Cell
  unfolding next_generation
  set_label_registry registry cell =
      publish
        (record {
          policy = cell.current.value.policy;
          label_registry = some registry;
          generation = next_generation cell.current.value.generation;
        })
        cell

  -- `rcu`, one step as above.
  unfoldable pub install_policy : Snapshot → Cell → Cell
  unfolding next_generation
  install_policy policy cell =
      publish
        (record {
          policy = policy;
          label_registry = cell.current.value.label_registry;
          generation = next_generation cell.current.value.generation;
        })
        cell

  -- The comparison and the swap are one step; `none` is `Ok(())`, else the latest state.
  unfoldable pub install_policy_if_current : State → Snapshot → Cell → Option State × Cell
  unfolding next_generation
  install_policy_if_current expected policy cell =
      if nat_beq expected.address cell.current.address
      then (
        none,
        publish
            (record {
              policy = policy;
              label_registry = expected.value.label_registry;
              generation = next_generation expected.value.generation;
            })
            cell,
      )
      else (some cell.current, cell)

  -- Where a thread stands between two accesses to the cell.
  pub data Thread : Type 0 where
    labelling : LabelRegistry c → Thread
    reloading : String → Thread
    reload_compiled : String → State → Snapshot → Thread
    replacing : String → Schema → Thread
    replace_compiled : Snapshot → Thread
    finished : Thread
    failed : PolicyError → Thread

  -- `Arc::new` of a compiled snapshot.
  abbrev pub allocate : PolicySnapshot c a → Cell → Snapshot × Cell
  allocate snapshot cell = (
    record { address = cell.next_address; value = snapshot },
    record cell { next_address = suc cell.next_address },
  )

  -- `current_state()`, and the compilation against the state that it returned.
  abbrev pub compile_for : String → Option Schema → String → Cell → Result (PolicySnapshot c a)
  compile_for text schema loaded_at cell =
      from_policy_text_with_schema_and_stores c a text schema
        (layout_of c cell.current.value.policy.value.sets) loaded_at

  abbrev pub after_compile :
      Result (PolicySnapshot c a) → (Snapshot → Thread) → Cell → Thread × Cell
  after_compile (err e) next cell = (failed e, cell)
  after_compile (ok snapshot) next cell =
      let (policy, cell') = allocate snapshot cell in (next policy, cell')

  -- After a failed swap: the inner loop goes on if only labels changed, else the outer one.
  abbrev pub after_install : String → State → Snapshot → Option State × Cell → Thread × Cell
  after_install text expected policy (none, cell) = (finished, cell)
  after_install text expected policy (some latest, cell) =
      if nat_beq expected.value.policy.address latest.value.policy.address
      then (reload_compiled text latest policy, cell)
      else (reloading text, cell)

  -- One access of a thread to the cell; `loaded_at` is the clock's text.
  unfoldable pub step_thread : String → Thread → Cell → Thread × Cell
  unfolding set_label_registry install_policy install_policy_if_current
      from_policy_text_with_schema_and_stores layout_of
  step_thread loaded_at (labelling registry) cell = (finished, set_label_registry registry cell)
  step_thread loaded_at (reloading text) cell =
      after_compile (compile_for text cell.current.value.policy.value.schema loaded_at cell)
        (reload_compiled text cell.current) cell
  step_thread loaded_at (reload_compiled text expected policy) cell =
      after_install text expected policy (install_policy_if_current expected policy cell)
  step_thread loaded_at (replacing text schema) cell =
      after_compile (compile_for text (some schema) loaded_at cell) replace_compiled cell
  step_thread loaded_at (replace_compiled policy) cell = (finished, install_policy policy cell)
  step_thread loaded_at finished cell = (finished, cell)
  step_thread loaded_at (failed e) cell = (failed e, cell)

  pub record World : Type 0 where
    pub cell : Cell
    pub threads : List Thread

  -- Thread `i` makes one step; any thread may be next.
  pub data Step : World → World → Type 0 where
    step :
        (loaded_at : String) (i : ℕ) (t : Thread) (w : World)
        → get_elem? w.threads i ≡ some t
        → Step w (record {
          cell = (step_thread loaded_at t w.cell).1;
          threads = set w.threads i (step_thread loaded_at t w.cell).0;
        })

  pub data Reachable : World → World → Type 0 where
    stay : (w : World) → Reachable w w
    more : {v u w : World} → Reachable v u → Step u w → Reachable v w
