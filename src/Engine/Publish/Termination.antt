-- ===== src/Engine/Publish/Termination.antt =====
-- The loops of `reload_from_str` in src/engine.rs end: each round that fails was caused by a
-- publication of another thread, and a thread that publishes has returned.
use treetop_core.Prelude.{
  ℕ, suc, zero, ◌+◌, ◌*◌, ◌≤◌, String, List, [], ◌∷◌, some, Bool, true, false, ◌≡◌, refl, ap, subst,
  ◌⊎◌, inl, inr, arith, nat_beq, get_elem?, set, if◌then◌else◌, beq_self, nat_eq, length,
  length-set, Bool-cases,
}
use treetop_core.Error.{Result, ok, err}
use treetop_core.Cedar.{Cedar}
use treetop_core.Cedar.Authorization.{Authorization}
use treetop_core.Engine.Snapshot.{PolicySnapshot}
use treetop_core.Engine.Publish.{
  Snapshot, Cell, set_label_registry, install_policy, install_policy_if_current, Thread, labelling,
  reloading, reload_compiled, replacing, replace_compiled, finished, failed, after_compile,
  step_thread, World,
}

module _ (c : Cedar) (a : Authorization c) where
  -- The call that the thread makes has returned.
  abbrev pub has_returned : Thread c a → Bool
  has_returned finished = true
  has_returned (failed e) = true
  has_returned (labelling registry) = false
  has_returned (reloading text) = false
  has_returned (reload_compiled text expected p) = false
  has_returned (replacing text schema) = false
  has_returned (replace_compiled p) = false

  -- A schedule of `n` steps, each of a thread that has not returned.
  pub data Run : ℕ → World c a → World c a → Type 0 where
    none_yet : (w : World c a) → Run 0 w w
    then_step :
        {n : ℕ} {v : World c a} (loaded_at : String) (i : ℕ) (t : Thread c a) (w : World c a)
        → Run n v w
        → get_elem? w.threads i ≡ some t
        → has_returned t ≡ false
        → Run (suc n) v (record {
          cell = (step_thread c a loaded_at t w.cell).1;
          threads = set w.threads i (step_thread c a loaded_at t w.cell).0;
        })

  -- The steps that a thread still needs if nobody else publishes, and `k` for its own publication.
  unfoldable steps_left : ℕ → ℕ → Thread c a → ℕ
  steps_left k now finished = 0
  steps_left k now (failed e) = 0
  steps_left k now (labelling registry) = k + 1
  steps_left k now (reloading text) = k + 2
  steps_left k now (reload_compiled text expected p) =
      if nat_beq expected.address now then k + 1 else k + 3
  steps_left k now (replacing text schema) = k + 2
  steps_left k now (replace_compiled p) = k + 1

  unfoldable total : ℕ → ℕ → List (Thread c a) → ℕ
  unfolding steps_left
  total k now [] = 0
  total k now (t ∷ ts) = steps_left k now t + total k now ts

  total-set :
      (k now : ℕ) (ts : List (Thread c a)) (i : ℕ) (t t' : Thread c a)
      → get_elem? ts i ≡ some t
      → total k now (set ts i t') + steps_left k now t ≡ total k now ts + steps_left k now t'
  unfolding total
  total-set k now [] i t t' h = absurd (ground arith)
  total-set k now (x ∷ ts) zero t t' h = ground arith
  total-set k now (x ∷ ts) (suc i) t t' h = ground (arith, total-set k now ts i t t')

  -- A publication costs every other thread two steps at most.
  steps_left-publish :
      (k now now' : ℕ) (t : Thread c a) → steps_left k now' t ≤ steps_left k now t + 2
  unfolding steps_left
  steps_left-publish k now now' t = ground arith

  total-publish :
      (k now now' : ℕ) (ts : List (Thread c a)) → total k now' ts ≤ total k now ts + 2 * length ts
  unfolding total
  total-publish k now now' [] = omega arith
  total-publish k now now' (t ∷ ts) =
      ground (arith, steps_left-publish k now now' t, total-publish k now now' ts)

  -- A step brings its thread closer to its return and changes nothing, or the thread has returned.
  abbrev Closer : ℕ → Thread c a → Cell c a → Thread c a × Cell c a → Type 0
  Closer k t cell after =
      ((after.1.current ≡ cell.current)
        × (steps_left k cell.current.address after.0 + 1 ≤ steps_left k cell.current.address t))
      ⊎ ((after.0 ≡ finished) × (k + 1 ≤ steps_left k cell.current.address t))

  -- A compilation leaves the state, and a compiled thread has come closer.
  after_compile-Closer :
      (k : ℕ) (t : Thread c a) (m : Result (PolicySnapshot c a)) (next : Snapshot c a → Thread c a)
      (cell : Cell c a)
      → ((p : Snapshot c a)
          → steps_left k cell.current.address (next p) + 1 ≤ steps_left k cell.current.address t)
      → 1 ≤ steps_left k cell.current.address t
      → Closer k t cell (after_compile c a m next cell)
  unfolding steps_left
  after_compile-Closer k t (err e) next cell h some_left = inl (refl, omega arith)
  after_compile-Closer k t (ok s) next cell h some_left = inl (refl, h _)

  step_thread-Closer :
      (k : ℕ) (loaded_at : String) (t : Thread c a) (cell : Cell c a)
      → has_returned t ≡ false
      → Closer k t cell (step_thread c a loaded_at t cell)
  unfolding step_thread set_label_registry install_policy install_policy_if_current steps_left
  step_thread-Closer k loaded_at finished cell h = absurd (ground arith)
  step_thread-Closer k loaded_at (failed e) cell h = absurd (ground arith)
  step_thread-Closer k loaded_at (labelling registry) cell h = inr (refl, omega arith)
  step_thread-Closer k loaded_at (reloading text) cell h =
      after_compile-Closer k (reloading text) _ (reload_compiled text cell.current) cell
        (λ p. rw (beq_self cell.current.address) (omega arith)) (omega arith)
  step_thread-Closer k loaded_at (reload_compiled text expected p) cell h =
      elim (Bool-cases (nat_beq expected.address cell.current.address)) [
        | inl e ↦ rw e (inr (refl, omega arith))
        | inr e ↦
            rw e
              (elim (Bool-cases
                (nat_beq expected.value.policy.address cell.current.value.policy.address)) [
                  | inl f ↦ rw f (inl (refl, rw (beq_self cell.current.address) (omega arith)))
                  | inr f ↦ rw f (inl (refl, omega arith))
                ])
      ]
  step_thread-Closer k loaded_at (replacing text schema) cell h =
      after_compile-Closer k (replacing text schema) _ replace_compiled cell (λ p. omega arith)
        (omega arith)
  step_thread-Closer k loaded_at (replace_compiled p) cell h = inr (refl, omega arith)

  -- The steps that all threads of the world may still take.
  unfoldable budget : World c a → ℕ
  unfolding total
  budget w = total (2 * length w.threads) w.cell.current.address w.threads

  then_step-budget :
      (loaded_at : String) (i : ℕ) (t : Thread c a) (w : World c a)
      → get_elem? w.threads i ≡ some t
      → has_returned t ≡ false
      → let after = step_thread c a loaded_at t w.cell in
        budget (record { cell = after.1; threads = set w.threads i after.0 }) + 1 ≤ budget w
  unfolding budget steps_left
  then_step-budget loaded_at i t w at h =
      let after = step_thread c a loaded_at t w.cell in
      let k = 2 * length w.threads in
      let now = w.cell.current.address in
      let same = length-set w.threads i after.0 in
      let moved = total-set k now w.threads i t after.0 at in
      rw same (elim (step_thread-Closer k loaded_at t w.cell h) [
        | inl (kept, less) ↦ rw kept (omega arith)
        | inr (done, paid) ↦
            let gone : steps_left k now after.0 ≡ 0 = ap (steps_left k now) done in
            let others = total-publish k now after.1.current.address (set w.threads i after.0) in
            let others' =
              subst
                (λ n.
                  total k after.1.current.address (set w.threads i after.0)
                  ≤ total k now (set w.threads i after.0) + 2 * n)
                same others in
            omega arith
      ])

  Run-budget : {n : ℕ} {v w : World c a} → Run n v w → n + budget w ≤ budget v
  Run-budget (none_yet w) = omega arith
  Run-budget (then_step loaded_at i t w run at h) =
      let before = Run-budget run in let last = then_step-budget loaded_at i t w at h in omega arith

  total-bound : (k now : ℕ) (ts : List (Thread c a)) → total k now ts ≤ length ts * (k + 3)
  unfolding total steps_left
  total-bound k now [] = omega arith
  total-bound k now (t ∷ ts) = ground (arith, total-bound k now ts)

  -- Whatever the schedule, a run in which no returned thread moves has at most so many steps, failed
  -- compilations and lost races included; an access to the cell is one step, and so is an `rcu`.
  pub Run-bound :
      (n : ℕ) (v w : World c a) → Run n v w → n ≤ length v.threads * (2 * length v.threads + 3)
  unfolding budget
  Run-bound n v w run =
      let spent = Run-budget run in
      let all = total-bound (2 * length v.threads) v.cell.current.address v.threads in omega arith

  tail_returned :
      (t : Thread c a) (ts : List (Thread c a))
      → has_returned t ≡ true
      → ((i : ℕ) (t' : Thread c a) → get_elem? ts i ≡ some t' → has_returned t' ≡ true)
      → (i : ℕ) (t' : Thread c a) → get_elem? (t ∷ ts) i ≡ some t'
      → has_returned t' ≡ true
  tail_returned t ts h rest zero t' at = cc (h, at)
  tail_returned t ts h rest (suc i) t' at = rest i t' at

  first_active :
      (ts : List (Thread c a))
      → ((i : ℕ) × (t : Thread c a) × (get_elem? ts i ≡ some t) × (has_returned t ≡ false))
        ⊎ ((i : ℕ) (t : Thread c a) → get_elem? ts i ≡ some t → has_returned t ≡ true)
  first_active [] = inr (λ i t at. absurd (ground arith))
  first_active (t ∷ ts) = elim (Bool-cases (has_returned t)) [
    | inr active ↦ inl (zero, t, refl, active)
    | inl returned ↦ elim (first_active ts) [
      | inl (i, t', at, active) ↦ inl (suc i, t', at, active)
      | inr rest ↦ inr (λ i t' at. tail_returned t ts returned rest i t' at)
    ]
  ]

  unfoldable pub AllReturned : World c a → Type 0
  AllReturned w = (i : ℕ) (t : Thread c a) → get_elem? w.threads i ≡ some t → has_returned t ≡ true

  complete :
      (fuel n : ℕ) (v w : World c a)
      → budget w ≤ fuel
      → Run n v w
      → (m : ℕ) × (u : World c a) × Run m v u × AllReturned u
  unfolding AllReturned
  complete zero n v w enough run = elim (first_active w.threads) [
    | inr all_done ↦ (n, w, run, all_done)
    | inl (i, t, at, active) ↦
        let less = then_step-budget "" i t w at active in absurd (omega arith)
  ]
  complete (suc fuel) n v w enough run = elim (first_active w.threads) [
    | inr all_done ↦ (n, w, run, all_done)
    | inl (i, t, at, active) ↦
        let less = then_step-budget "" i t w at active in
        complete fuel (suc n) v _ (omega arith) (then_step "" i t w run at active)
  ]

  -- From every world, some schedule leads to one where all threads have returned.
  pub Run-completes : (w : World c a) → (m : ℕ) × (u : World c a) × Run m w u × AllReturned u
  Run-completes w = complete (budget w) 0 w w (omega arith) (none_yet w)
