-- ===== src/Engine/Publish/Reload.antt =====
-- What publication guarantees whatever the interleaving: reloads restore no superseded schema, lose
-- no labels, keep the store layout, and generations only grow.
use treetop_core.Prelude.{
  ℕ, ◌≤◌, String, List, Option, some, ◌≡◌, refl, sym, ap, ◌∙◌, subst, ◌⊎◌, inl, inr, arith, nat_beq,
  get_elem?, Bool-cases,
}
use treetop_core.Error.{Result, ok, err}
use treetop_core.Cedar.{Cedar}
use treetop_core.Cedar.Authorization.{Authorization}
use treetop_core.Store.Layout.{PolicyStoreLayout}
use treetop_core.Partition.{layout_of}
use treetop_core.Engine.Snapshot.{PolicySnapshot, EngineState, next_generation, u64_max}
use treetop_core.Engine.Publish.{
  Snapshot, State, Cell, set_label_registry, install_policy, install_policy_if_current,
  from_snapshot, Thread, labelling, reloading, reload_compiled, replacing, replace_compiled,
  finished, failed, after_compile, compile_for, step_thread, World, Step, step, Reachable, stay,
  more,
}
use treetop_core.Engine.Publish.Invariant.{CellOk, ThreadOk}
use treetop_core.Engine.Publish.Preserved.{WorldOk, Reachable-WorldOk, expected-current}

module _ (c : Cedar) (a : Authorization c) where
  -- A thread that has not yet read the cell.
  abbrev pub IsInitial : Thread c a → Type 0
  IsInitial (reload_compiled text expected p) = ⊥
  IsInitial (replace_compiled p) = ⊥
  IsInitial (labelling registry) = Unit
  IsInitial (reloading text) = Unit
  IsInitial (replacing text schema) = Unit
  IsInitial finished = Unit
  IsInitial (failed e) = Unit

  abbrev pub AreInitial : List (Thread c a) → Type 0
  AreInitial ts = (i : ℕ) (t : Thread c a) → get_elem? ts i ≡ some t → IsInitial t

  -- A new engine, and threads that are about to use it.
  abbrev pub start : PolicySnapshot c a → List (Thread c a) → World c a
  start snapshot ts = record { cell = from_snapshot c a snapshot; threads = ts }

  initial-ThreadOk :
      (layout : Option PolicyStoreLayout) (h : ℕ → PolicySnapshot c a) (g : ℕ → EngineState c a)
      (n : ℕ) (t : Thread c a)
      → IsInitial t
      → ThreadOk c a layout h g n t
  initial-ThreadOk layout h g n (reload_compiled text expected p) k = absurd k
  initial-ThreadOk layout h g n (replace_compiled p) k = absurd k
  initial-ThreadOk layout h g n (labelling registry) k = tt
  initial-ThreadOk layout h g n (reloading text) k = tt
  initial-ThreadOk layout h g n (replacing text schema) k = tt
  initial-ThreadOk layout h g n finished k = tt
  initial-ThreadOk layout h g n (failed e) k = tt

  pub start-WorldOk :
      (snapshot : PolicySnapshot c a) (ts : List (Thread c a))
      → AreInitial ts
      → WorldOk c a (layout_of c snapshot.sets) (start snapshot ts)
  unfolding WorldOk from_snapshot
  start-WorldOk snapshot ts initial =
      let state = (from_snapshot c a snapshot).current.value in
      (
        λ j. snapshot,
        λ j. state,
        (omega arith, refl, (omega arith, refl, refl)),
        λ i t at.
            initial-ThreadOk (layout_of c snapshot.sets) (λ j. snapshot) (λ j. state) 2 t
              (initial i t at),
      )

  module _ (snapshot : PolicySnapshot c a) (ts : List (Thread c a)) (w : World c a) where
    -- Whatever threads do, the engine keeps the store layout that it was created with.
    pub layout_constant :
        AreInitial ts
        → Reachable c a (start snapshot ts) w
        → layout_of c w.cell.current.value.policy.value.sets ≡ layout_of c snapshot.sets
    unfolding WorldOk
    layout_constant initial path =
        let (_, _, (_, _, (_, _, l)), _) =
          Reachable-WorldOk c a _ (start-WorldOk snapshot ts initial) path in
        l

    -- A reload that publishes keeps the label registry and the schema of the state that it replaces,
    -- also where others published while it compiled, and gives the next generation.
    pub reload-current :
        AreInitial ts
        → Reachable c a (start snapshot ts) w
        → (i : ℕ) (loaded_at text : String) (expected : State c a) (p : Snapshot c a)
        → get_elem? w.threads i ≡ some (reload_compiled text expected p)
        → (step_thread c a loaded_at (reload_compiled text expected p) w.cell).0 ≡ finished
        → let before = w.cell.current.value in
          let after =
            (step_thread c a loaded_at (reload_compiled text expected p) w.cell).1.current.value in
          (after.policy ≡ p)
          × (after.policy.value.schema ≡ before.policy.value.schema)
          × (after.label_registry ≡ before.label_registry)
          × (after.generation ≡ next_generation before.generation)
    unfolding WorldOk step_thread install_policy_if_current
    reload-current initial path i loaded_at text expected p at done =
        let (h, g, good, threads) =
          Reachable-WorldOk c a _ (start-WorldOk snapshot ts initial) path in
        let (s, q, k) = threads i (reload_compiled text expected p) at in
        elim (Bool-cases (nat_beq expected.address w.cell.current.address)) [
          | inl e ↦
              let same = expected-current c a _ h g w.cell good expected s e in
              rw e (
                refl,
                k ∙ ap (λ (x : EngineState c a). x.policy.value.schema) same,
                ap (λ (x : EngineState c a). x.label_registry) same,
                ap (λ (x : EngineState c a). next_generation x.generation) same,
              )
          | inr e ↦
              absurd
                (elim (Bool-cases
                  (nat_beq expected.value.policy.address w.cell.current.value.policy.address)) [
                    | inl f ↦ ground arith
                    | inr f ↦ ground arith
                  ])
        ]

  -- Compared with a cell, another one has the same current state, or the next generation.
  abbrev pub Advances : Cell c a → Cell c a → Type 0
  Advances before after =
      (after.current ≡ before.current)
      ⊎ (after.current.value.generation ≡ next_generation before.current.value.generation)

  after_compile-Advances :
      (m : Result (PolicySnapshot c a)) (next : Snapshot c a → Thread c a) (cell : Cell c a)
      → Advances cell (after_compile c a m next cell).1
  after_compile-Advances (err e) next cell = inl refl
  after_compile-Advances (ok s) next cell = inl refl

  pub step_thread-Advances :
      (layout : Option PolicyStoreLayout) (h : ℕ → PolicySnapshot c a) (g : ℕ → EngineState c a)
      (cell : Cell c a) (loaded_at : String) (t : Thread c a)
      → CellOk c a layout h g cell
      → ThreadOk c a layout h g cell.next_address t
      → Advances cell (step_thread c a loaded_at t cell).1
  unfolding step_thread set_label_registry install_policy install_policy_if_current
  step_thread-Advances layout h g cell loaded_at (labelling registry) good q = inr refl
  step_thread-Advances layout h g cell loaded_at (reloading text) good q =
      after_compile-Advances
        (compile_for c a text cell.current.value.policy.value.schema loaded_at cell)
        (reload_compiled text cell.current) cell
  step_thread-Advances layout h g cell loaded_at (reload_compiled text expected p) good (s, _, _) =
      elim (Bool-cases (nat_beq expected.address cell.current.address)) [
        | inl e ↦ rw e (
            inr (
              ap (λ (x : EngineState c a). next_generation x.generation)
                (expected-current c a layout h g cell good expected s e)))
        | inr e ↦
            rw e
              (elim (Bool-cases
                (nat_beq expected.value.policy.address cell.current.value.policy.address)) [
                  | inl f ↦ rw f (inl refl)
                  | inr f ↦ rw f (inl refl)
                ])
      ]
  step_thread-Advances layout h g cell loaded_at (replacing text schema) good q =
      after_compile-Advances (compile_for c a text (some schema) loaded_at cell) replace_compiled
        cell
  step_thread-Advances layout h g cell loaded_at (replace_compiled p) good q = inr refl
  step_thread-Advances layout h g cell loaded_at finished good q = inl refl
  step_thread-Advances layout h g cell loaded_at (failed e) good q = inl refl

  abbrev pub generation_of : World c a → ℕ
  generation_of w = w.cell.current.value.generation

  pub Step-generation :
      (layout : Option PolicyStoreLayout) {u w : World c a}
      → WorldOk c a layout u
      → Step c a u w
      → generation_of u ≤ u64_max
      → (generation_of u ≤ generation_of w) × (generation_of w ≤ u64_max)
  unfolding WorldOk next_generation
  Step-generation layout (h, g, good, threads) (step loaded_at i t u at) bound =
      elim (step_thread-Advances layout h g u.cell loaded_at t good (threads i t at)) [
        | inl e ↦
            subst
              (λ (s : State c a).
                (generation_of u ≤ s.value.generation) × (s.value.generation ≤ u64_max))
              (sym e) (omega arith, bound)
        | inr e ↦ ground arith
      ]

  pub Reachable-generation :
      (layout : Option PolicyStoreLayout) {u w : World c a}
      → WorldOk c a layout u
      → generation_of u ≤ u64_max
      → Reachable c a u w
      → (generation_of u ≤ generation_of w) × (generation_of w ≤ u64_max)
  Reachable-generation layout good bound (stay w) = (omega arith, bound)
  Reachable-generation layout good bound (more path last) =
      let (up, bound') = Reachable-generation layout good bound path in
      let (up', bound'') =
        Step-generation layout (Reachable-WorldOk c a layout good path) last bound' in
      (omega arith, bound'')

  -- The generation of a new engine is 1; from there, in every interleaving, it never falls, and it
  -- stays in a `u64`.
  pub generation-Reachable :
      (snapshot : PolicySnapshot c a) (ts : List (Thread c a)) (v w : World c a)
      → AreInitial ts
      → Reachable c a (start snapshot ts) v
      → Reachable c a v w
      → (generation_of (start snapshot ts) ≡ 1)
        × (1 ≤ generation_of v)
        × (generation_of v ≤ generation_of w)
        × (generation_of w ≤ u64_max)
  unfolding from_snapshot
  generation-Reachable snapshot ts v w initial before later =
      let layout = layout_of c snapshot.sets in
      let good = start-WorldOk snapshot ts initial in
      let (up, bound) = Reachable-generation layout good (omega arith) before in
      let (up', bound') =
        Reachable-generation layout (Reachable-WorldOk c a layout good before) bound later in
      (refl, up, up', bound')
