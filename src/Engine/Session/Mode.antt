-- ===== src/Engine/Session/Mode.antt =====
-- The validation modes of src/engine.rs, `SchemaFree` and `SchemaEnforcing`: an engine keeps its mode.
use treetop_core.Prelude.{
  ℕ, String, List, Option, none, some, ◌≡◌, ◌≢◌, refl, sym, subst, inl, inr, nat_beq, get_elem?,
  get_elem?-set, set, Bool-cases,
}
use treetop_core.Error.{Result, ok, err}
use treetop_core.Cedar.{Cedar}
use treetop_core.Cedar.Authorization.{Authorization}
use treetop_core.Engine.Snapshot.{PolicySnapshot}
use treetop_core.Engine.Publish.{
  Snapshot, Cell, from_snapshot, set_label_registry, install_policy, install_policy_if_current,
  Thread, labelling, reloading, reload_compiled, replacing, replace_compiled, finished, failed,
  after_compile, step_thread, World, Step, step, Reachable, stay, more,
}
use treetop_core.Engine.Publish.Invariant.{compiled-fields}
use treetop_core.Engine.Publish.Reload.{IsInitial, AreInitial, start}

-- The marker types.
pub data ValidationMode : Type 0 where
  schema_free schema_enforcing : ValidationMode

-- What a mode promises of the schema.
unfoldable pub HasMode {ℓ} : {S : Type ℓ} → ValidationMode → Option S → Type ℓ
HasMode schema_free schema = schema ≡ none
HasMode schema_enforcing schema = schema ≢ none

module _ (c : Cedar) (a : Authorization c) where
  abbrev schema_of : Snapshot c a → Option a.Schema
  schema_of p = p.value.schema

  -- The calls that the mode's type has: a schema is replaced on an enforcing engine only.
  abbrev pub HasMethod : ValidationMode → Thread c a → Type 0
  HasMethod schema_free (replacing text schema) = ⊥
  HasMethod schema_enforcing (replacing text schema) = Unit
  HasMethod mode (labelling registry) = Unit
  HasMethod mode (reloading text) = Unit
  HasMethod mode (reload_compiled text expected p) = Unit
  HasMethod mode (replace_compiled p) = Unit
  HasMethod mode finished = Unit
  HasMethod mode (failed e) = Unit

  -- Every snapshot that a thread holds is of the mode.
  unfoldable KeepsMode : ValidationMode → Thread c a → Type 0
  unfolding HasMode
  KeepsMode mode (reload_compiled text expected p) = HasMode mode (schema_of p)
  KeepsMode mode (replace_compiled p) = HasMode mode (schema_of p)
  KeepsMode mode (replacing text schema) = HasMode mode (some schema)
  KeepsMode mode (labelling registry) = Unit
  KeepsMode mode (reloading text) = Unit
  KeepsMode mode finished = Unit
  KeepsMode mode (failed e) = Unit

  HasMethod-KeepsMode :
      (mode : ValidationMode) (t : Thread c a)
      → IsInitial c a t
      → HasMethod mode t
      → KeepsMode mode t
  unfolding KeepsMode HasMode
  HasMethod-KeepsMode mode (reload_compiled text expected p) i h = absurd i
  HasMethod-KeepsMode mode (replace_compiled p) i h = absurd i
  HasMethod-KeepsMode schema_free (replacing text schema) i h = absurd h
  HasMethod-KeepsMode schema_enforcing (replacing text schema) i h = λ e. cc e
  HasMethod-KeepsMode mode (labelling registry) i h = tt
  HasMethod-KeepsMode mode (reloading text) i h = tt
  HasMethod-KeepsMode mode finished i h = tt
  HasMethod-KeepsMode mode (failed e) i h = tt

  -- What a step leaves behind.
  abbrev BothKeep : ValidationMode → Thread c a × Cell c a → Type 0
  BothKeep mode after =
      KeepsMode mode after.0 × HasMode mode (schema_of after.1.current.value.policy)

  after_compile-BothKeep :
      (mode : ValidationMode) (schema : Option a.Schema) (m : Result (PolicySnapshot c a))
      (next : Snapshot c a → Thread c a) (cell : Cell c a)
      → HasMode mode (schema_of cell.current.value.policy)
      → HasMode mode schema
      → ((s : PolicySnapshot c a) → m ≡ ok s → s.schema ≡ schema)
      → ((p : Snapshot c a) → HasMode mode (schema_of p) → KeepsMode mode (next p))
      → BothKeep mode (after_compile c a m next cell)
  unfolding KeepsMode
  after_compile-BothKeep mode schema (err e) next cell now wanted fields then_ok = (tt, now)
  after_compile-BothKeep mode schema (ok s) next cell now wanted fields then_ok =
      (then_ok _ (subst (HasMode mode) (sym (fields s refl)) wanted), now)

  step_thread-BothKeep :
      (mode : ValidationMode) (loaded_at : String) (t : Thread c a) (cell : Cell c a)
      → KeepsMode mode t
      → HasMode mode (schema_of cell.current.value.policy)
      → BothKeep mode (step_thread c a loaded_at t cell)
  unfolding step_thread set_label_registry install_policy install_policy_if_current KeepsMode
  step_thread-BothKeep mode loaded_at (labelling registry) cell q now = (tt, now)
  step_thread-BothKeep mode loaded_at (reloading text) cell q now =
      after_compile-BothKeep mode cell.current.value.policy.value.schema _
        (reload_compiled text cell.current) cell now now
        (λ s made. (compiled-fields c a text _ _ loaded_at s made).0) (λ p own. own)
  step_thread-BothKeep mode loaded_at (reload_compiled text expected p) cell q now =
      elim (Bool-cases (nat_beq expected.address cell.current.address)) [
        | inl e ↦ rw e (tt, q)
        | inr e ↦
            rw e
              (elim (Bool-cases
                (nat_beq expected.value.policy.address cell.current.value.policy.address)) [
                  | inl f ↦ rw f (q, now)
                  | inr f ↦ rw f (tt, now)
                ])
      ]
  step_thread-BothKeep mode loaded_at (replacing text schema) cell q now =
      after_compile-BothKeep mode (some schema) _ replace_compiled cell now q
        (λ s made. (compiled-fields c a text _ _ loaded_at s made).0) (λ p own. own)
  step_thread-BothKeep mode loaded_at (replace_compiled p) cell q now = (tt, q)
  step_thread-BothKeep mode loaded_at finished cell q now = (tt, now)
  step_thread-BothKeep mode loaded_at (failed e) cell q now = (tt, now)

  unfoldable WorldKeeps : ValidationMode → World c a → Type 0
  WorldKeeps mode w =
      HasMode mode (schema_of w.cell.current.value.policy)
      × ((i : ℕ) (t : Thread c a) → get_elem? w.threads i ≡ some t → KeepsMode mode t)

  set-KeepsMode :
      (mode : ValidationMode) (ts : List (Thread c a)) (i j : ℕ) (t t' new : Thread c a)
      → get_elem? ts i ≡ some t
      → KeepsMode mode new
      → (get_elem? ts j ≡ some t' → KeepsMode mode t')
      → get_elem? (set ts i new) j ≡ some t'
      → KeepsMode mode t'
  set-KeepsMode mode ts i j t t' new at own others at' = elim (Bool-cases (nat_beq i j)) [
    | inl e ↦
        let now : some new ≡ some t' = rw (get_elem?-set ts i j new at, e) at at' in
        subst (KeepsMode mode) (cc now) own
    | inr e ↦ others (rw (get_elem?-set ts i j new at, e) at at')
  ]

  Step-WorldKeeps :
      (mode : ValidationMode) {u w : World c a}
      → WorldKeeps mode u
      → Step c a u w
      → WorldKeeps mode w
  unfolding WorldKeeps
  Step-WorldKeeps mode (now, all_keep) (step loaded_at i t u at) =
      let (own, later) = step_thread-BothKeep mode loaded_at t u.cell (all_keep i t at) now in
      (later, λ j t' at'. set-KeepsMode mode u.threads i j t t' _ at own (all_keep j t') at')

  Reachable-WorldKeeps :
      (mode : ValidationMode) {u w : World c a}
      → WorldKeeps mode u
      → Reachable c a u w
      → WorldKeeps mode w
  Reachable-WorldKeeps mode good (stay w) = good
  Reachable-WorldKeeps mode good (more path last) =
      Step-WorldKeeps mode (Reachable-WorldKeeps mode good path) last

  -- Under every interleaving of the calls that its type has, an engine that was created with a
  -- schema always enforces one, and an engine that was created without never has one.
  pub mode_constant :
      (mode : ValidationMode) (snapshot : PolicySnapshot c a) (ts : List (Thread c a))
      (w : World c a)
      → HasMode mode snapshot.schema
      → AreInitial c a ts
      → ((i : ℕ) (t : Thread c a) → get_elem? ts i ≡ some t → HasMethod mode t)
      → Reachable c a (start c a snapshot ts) w
      → HasMode mode w.cell.current.value.policy.value.schema
  unfolding WorldKeeps from_snapshot
  mode_constant mode snapshot ts w own initial methods path =
      (Reachable-WorldKeeps mode
        (own, λ i t at. HasMethod-KeepsMode mode t (initial i t at) (methods i t at)) path).0
