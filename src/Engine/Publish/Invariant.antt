-- ===== src/Engine/Publish/Invariant.antt =====
-- The invariant of the shared cell: equal addresses are equal objects, a compiled snapshot has the
-- schema of the state that it was compiled against, and all have one store layout.
use treetop_core.Prelude.{
  ℕ, suc, ◌≤◌, ◌<◌, String, [], Option, none, some, ◌≡◌, refl, sym, ap, ◌∙◌, subst, arith, nat_beq,
  set, if◌then◌else◌, length, replicate,
}
use treetop_core.Error.{
  Result, ok, err, policy_store_config_error, >>=-eq-ok, fail_if-eq-ok, ok-inj,
}
use treetop_core.Cedar.{Cedar}
use treetop_core.Cedar.Authorization.{Authorization}
use treetop_core.Store.Layout.{PolicyStoreLayout}
use treetop_core.Partition.{PolicySets, layout_of, partition_policy_set, assign_all}
use treetop_core.Loader.{precompute_permit_policies}
use treetop_core.Engine.Snapshot.{
  compile, sets_of, PolicySnapshot, EngineState, from_policy_text_with_schema_and_stores,
}
use treetop_core.Engine.Publish.{
  Snapshot, State, Cell, publish, Thread, labelling, reloading, reload_compiled, replacing,
  replace_compiled, finished, failed, after_compile,
}

-- `h` with one more object.
abbrev extend : {A : Type 0} → (ℕ → A) → ℕ → A → ℕ → A
extend h n v j = if nat_beq n j then v else h j

extend-below : {A : Type 0} (h : ℕ → A) (n : ℕ) (v : A) (j : ℕ) → j < n → h j ≡ extend h n v j
extend-below h n v j k = ground arith

extend-at : {A : Type 0} (h : ℕ → A) (n : ℕ) (v : A) → v ≡ extend h n v n
extend-at h n v = ground arith

module _ (c : Cedar) (a : Authorization c) where
  partition-layout :
      (set : c.PolicySet) (layout : PolicyStoreLayout) (sets : PolicySets c)
      → partition_policy_set c set layout ≡ ok sets
      → layout_of c sets ≡ some layout
  unfolding partition_policy_set layout_of
  partition-layout set layout sets h =
      let (done, _, h1) =
        >>=-eq-ok
          (assign_all c layout (c.policies set) []
            (replicate (length layout.stores) c.new_set_of_policies))
          _ h in
      let (_, h2) = fail_if-eq-ok _ policy_store_config_error _ h1 in
      subst (λ s. layout_of c s ≡ some layout) (ok-inj h2) refl

  sets_of-layout :
      (set : c.PolicySet) (layout : Option PolicyStoreLayout) (sets : PolicySets c)
      → sets_of c a set layout ≡ ok sets
      → layout_of c sets ≡ layout
  unfolding layout_of
  sets_of-layout set none sets h = subst (λ s. layout_of c s ≡ none) (ok-inj h) refl
  sets_of-layout set (some layout) sets h = partition-layout set layout sets h

  -- A compiled snapshot has the schema and the layout that it was compiled with.
  pub compiled-fields :
      (text : String) (schema : Option a.Schema) (layout : Option PolicyStoreLayout)
      (loaded_at : String) (snapshot : PolicySnapshot c a)
      → from_policy_text_with_schema_and_stores c a text schema layout loaded_at ≡ ok snapshot
      → (snapshot.schema ≡ schema) × (layout_of c snapshot.sets ≡ layout)
  unfolding from_policy_text_with_schema_and_stores
  compiled-fields text schema layout loaded_at snapshot h =
      let (set, _, h1) = >>=-eq-ok (compile c a text schema) _ h in
      let (permits, _, h2) = >>=-eq-ok (precompute_permit_policies c a set) _ h1 in
      let (sets, at, h3) = >>=-eq-ok (sets_of c a set layout) _ h2 in
      let same = ok-inj h3 in
      (
        sym (ap (λ (s : PolicySnapshot c a). s.schema) same),
        subst (λ (s : PolicySnapshot c a). layout_of c s.sets ≡ layout) same
            (sets_of-layout set layout sets at),
      )

  module _ (layout : Option PolicyStoreLayout) where
    -- The object at the address, below the next one to be given.
    abbrev pub SnapshotOk : (ℕ → PolicySnapshot c a) → ℕ → Snapshot c a → Type 0
    SnapshotOk h n p =
        (p.address < n) × (p.value ≡ h p.address) × (layout_of c p.value.sets ≡ layout)

    abbrev pub StateOk : (ℕ → PolicySnapshot c a) → (ℕ → EngineState c a) → ℕ → State c a → Type 0
    StateOk h g n s = (s.address < n) × (s.value ≡ g s.address) × SnapshotOk h n s.value.policy

    abbrev pub ThreadOk : (ℕ → PolicySnapshot c a) → (ℕ → EngineState c a) → ℕ → Thread c a → Type 0
    ThreadOk h g n (reload_compiled text expected p) =
        StateOk h g n expected
        × SnapshotOk h n p
        × (p.value.schema ≡ expected.value.policy.value.schema)
    ThreadOk h g n (replace_compiled p) = SnapshotOk h n p
    ThreadOk h g n (labelling registry) = Unit
    ThreadOk h g n (reloading text) = Unit
    ThreadOk h g n (replacing text schema) = Unit
    ThreadOk h g n finished = Unit
    ThreadOk h g n (failed e) = Unit

    -- Objects are added, and none is changed.
    pub record Extends (h h' : ℕ → PolicySnapshot c a) (g g' : ℕ → EngineState c a) (n n' : ℕ)
        : Type 0 where
      pub snapshots : (j : ℕ) → j < n → h j ≡ h' j
      pub states : (j : ℕ) → j < n → g j ≡ g' j
      pub grows : n ≤ n'

    module _ {h h' : ℕ → PolicySnapshot c a} {g g' : ℕ → EngineState c a} {n n' : ℕ}
        (x : Extends h h' g g' n n') where
      pub SnapshotOk-mono : (p : Snapshot c a) → SnapshotOk h n p → SnapshotOk h' n' p
      SnapshotOk-mono p (low, at, l) =
          let up = x.grows in (omega arith, at ∙ x.snapshots p.address low, l)

      pub StateOk-mono : (s : State c a) → StateOk h g n s → StateOk h' g' n' s
      StateOk-mono s (low, at, p) =
          let up = x.grows in
          (omega arith, at ∙ x.states s.address low, SnapshotOk-mono s.value.policy p)

      pub ThreadOk-mono : (t : Thread c a) → ThreadOk h g n t → ThreadOk h' g' n' t
      ThreadOk-mono (reload_compiled text e p) (s, q, k) =
          (StateOk-mono e s, SnapshotOk-mono p q, k)
      ThreadOk-mono (replace_compiled p) q = SnapshotOk-mono p q
      ThreadOk-mono (labelling registry) q = tt
      ThreadOk-mono (reloading text) q = tt
      ThreadOk-mono (replacing text schema) q = tt
      ThreadOk-mono finished q = tt
      ThreadOk-mono (failed e) q = tt

    abbrev pub CellOk : (ℕ → PolicySnapshot c a) → (ℕ → EngineState c a) → Cell c a → Type 0
    CellOk h g cell = StateOk h g cell.next_address cell.current

    -- What a step must leave behind.
    abbrev pub Kept :
        (ℕ → PolicySnapshot c a) → (ℕ → EngineState c a) → Cell c a → Thread c a × Cell c a → Type 0
    Kept h g cell after =
        (h' : ℕ → PolicySnapshot c a) × (g' : ℕ → EngineState c a) × Extends h h' g g'
          cell.next_address after.1.next_address
        × CellOk h' g' after.1
        × ThreadOk h' g' after.1.next_address after.0

    module _ (h : ℕ → PolicySnapshot c a) (g : ℕ → EngineState c a) (cell : Cell c a)
        (good : CellOk h g cell) where
      pub unchanged : (t : Thread c a) → ThreadOk h g cell.next_address t → Kept h g cell (t, cell)
      unchanged t ok_t = (
        h,
        g,
        record { snapshots = λ j k. refl; states = λ j k. refl; grows = omega arith },
        good,
        ok_t,
      )

      pub published :
          (s : EngineState c a)
          → SnapshotOk h cell.next_address s.policy
          → Kept h g cell (finished, publish c a s cell)
      published s p =
          let n = cell.next_address in
          let x : Extends h h g (extend g n s) n (suc n) = record {
            snapshots = λ j k. refl;
            states = extend-below g n s;
            grows = omega arith;
          } in
          (h, extend g n s, x, (omega arith, extend-at g n s, SnapshotOk-mono x s.policy p), tt)

      pub compiled :
          (schema : Option a.Schema) (m : Result (PolicySnapshot c a))
          (next : Snapshot c a → Thread c a)
          → ((s : PolicySnapshot c a)
              → m ≡ ok s
              → (s.schema ≡ schema) × (layout_of c s.sets ≡ layout))
          → ((h' : ℕ → PolicySnapshot c a) (g' : ℕ → EngineState c a) (n' : ℕ) (p : Snapshot c a)
              → StateOk h' g' n' cell.current
              → SnapshotOk h' n' p
              → p.value.schema ≡ schema
              → ThreadOk h' g' n' (next p))
          → Kept h g cell (after_compile c a m next cell)
      compiled schema (err e) next fields then_ok = unchanged (failed e) tt
      compiled schema (ok s) next fields then_ok =
          let n = cell.next_address in
          let (same, l) = fields s refl in
          let x : Extends h (extend h n s) g g n (suc n) = record {
            snapshots = extend-below h n s;
            states = λ j k. refl;
            grows = omega arith;
          } in
          let now = StateOk-mono x cell.current good in
          (
            extend h n s,
            g,
            x,
            now,
            then_ok (extend h n s) g (suc n) (record { address = n; value = s }) now
                (omega arith, extend-at h n s, l) same,
          )
