-- ===== src/Engine/Publish/Alone.antt =====
-- A thread that no other disturbs comes to an end: the two loops of `reload_from_str` do not spin.
use treetop_core.Prelude.{
  ℕ, zero, suc, String, true, ◌≡◌, refl, sym, subst, nat_beq, nat_beq_iff, inl, inr, Bool-cases,
}
use treetop_core.Error.{PolicyError, Result, ok, err}
use treetop_core.Cedar.{Cedar}
use treetop_core.Cedar.Authorization.{Authorization}
use treetop_core.Engine.Snapshot.{PolicySnapshot, next_generation}
use treetop_core.Engine.Publish.{
  Snapshot, State, Cell, publish, Thread, labelling, reloading, reload_compiled, replacing,
  replace_compiled, finished, failed, after_compile, step_thread, install_policy_if_current,
}

module _ (c : Cedar) (a : Authorization c) where
  -- `n` steps of one thread, the clock standing still.
  unfoldable pub run : ℕ → String → Thread c a × Cell c a → Thread c a × Cell c a
  unfolding step_thread
  run zero loaded_at (t, cell) = (t, cell)
  run (suc n) loaded_at (t, cell) = run n loaded_at (step_thread c a loaded_at t cell)

  abbrev pub HasEnded : Thread c a → Type 0
  HasEnded finished = Unit
  HasEnded (failed e) = Unit
  HasEnded (labelling registry) = ⊥
  HasEnded (reloading text) = ⊥
  HasEnded (reload_compiled text expected p) = ⊥
  HasEnded (replacing text schema) = ⊥
  HasEnded (replace_compiled p) = ⊥

  run-finished : (n : ℕ) (at : String) (cell : Cell c a) → (run n at (finished, cell)).0 ≡ finished
  unfolding run step_thread
  run-finished zero at cell = refl
  run-finished (suc n) at cell = run-finished n at cell

  run-failed :
      (n : ℕ) (at : String) (e : PolicyError) (cell : Cell c a)
      → (run n at (failed e, cell)).0 ≡ failed e
  unfolding run step_thread
  run-failed zero at e cell = refl
  run-failed (suc n) at e cell = run-failed n at e cell

  nat_beq_self : (n : ℕ) → nat_beq n n ≡ true
  nat_beq_self n = (nat_beq_iff n n).1 refl

  by_step :
      (n : ℕ) (at : String) (t : Thread c a) (cell : Cell c a) {x : Thread c a × Cell c a}
      → step_thread c a at t cell ≡ x
      → HasEnded (run n at x).0
      → HasEnded (run (suc n) at (t, cell)).0
  unfolding run
  by_step n at t cell e k = subst (λ y. HasEnded (run n at y).0) (sym e) k

  done : (n : ℕ) (at : String) (cell : Cell c a) → HasEnded (run n at (finished, cell)).0
  done n at cell = subst HasEnded (sym (run-finished n at cell)) tt

  -- A compiled policy whose expected state is current is published.
  current_ends :
      (n : ℕ) (at text : String) (p : Snapshot c a) (cell : Cell c a) (expected : State c a)
      → nat_beq expected.address cell.current.address ≡ true
      → HasEnded (run (suc n) at (reload_compiled text expected p, cell)).0
  unfolding step_thread install_policy_if_current
  current_ends n at text p cell expected h =
      let published =
        publish c a
          (record {
            policy = p;
            label_registry = expected.value.label_registry;
            generation = next_generation expected.value.generation;
          })
          cell in
      by_step n at (reload_compiled text expected p) cell {x = (finished, published)}
        (rw (h, step_thread) refl) (done n at published)

  compiled_ends :
      (n : ℕ) (at text : String) (cell : Cell c a) (m : Result (PolicySnapshot c a))
      → HasEnded (run (suc n) at (after_compile c a m (reload_compiled text cell.current) cell)).0
  compiled_ends n at text cell (err e) = subst HasEnded (sym (run-failed (suc n) at e cell)) tt
  compiled_ends n at text cell (ok s) =
      current_ends n at text _ _ cell.current (nat_beq_self cell.current.address)

  reloading_ends :
      (n : ℕ) (at text : String) (cell : Cell c a)
      → HasEnded (run (suc (suc n)) at (reloading text, cell)).0
  unfolding step_thread
  reloading_ends n at text cell =
      by_step (suc n) at (reloading text) cell refl (compiled_ends n at text cell _)

  replaced_ends :
      (n : ℕ) (at : String) (cell : Cell c a) (m : Result (PolicySnapshot c a))
      → HasEnded (run (suc n) at (after_compile c a m replace_compiled cell)).0
  unfolding step_thread
  replaced_ends n at cell (err e) = subst HasEnded (sym (run-failed (suc n) at e cell)) tt
  replaced_ends n at cell (ok s) = by_step n at (replace_compiled _) _ refl (done n at _)

  -- Alone, whatever was published meanwhile, a thread ends its call within four steps, with a
  -- publication or with an error.
  pub run_alone : (at : String) (t : Thread c a) (cell : Cell c a) → HasEnded (run 4 at (t, cell)).0
  unfolding step_thread install_policy_if_current
  run_alone at (labelling registry) cell = by_step 3 at (labelling registry) cell refl (done 3 at _)
  run_alone at (reloading text) cell = reloading_ends 2 at text cell
  run_alone at (reload_compiled text expected p) cell =
      elim (Bool-cases (nat_beq expected.address cell.current.address)) [
        | inl e ↦ current_ends 3 at text p cell expected e
        | inr e ↦
            elim (Bool-cases
              (nat_beq expected.value.policy.address cell.current.value.policy.address)) [
                | inl f ↦
                    by_step 3 at (reload_compiled text expected p) cell
                      {x = (reload_compiled text cell.current p, cell)}
                      (rw (e, f, step_thread) refl)
                      (current_ends 2 at text p cell cell.current
                        (nat_beq_self cell.current.address))
                | inr f ↦
                    by_step 3 at (reload_compiled text expected p) cell {x = (reloading text, cell)}
                      (rw (e, f, step_thread) refl) (reloading_ends 1 at text cell)
              ]
      ]
  run_alone at (replacing text schema) cell =
      by_step 3 at (replacing text schema) cell refl (replaced_ends 2 at cell _)
  run_alone at (replace_compiled p) cell = by_step 3 at (replace_compiled p) cell refl (done 3 at _)
  run_alone at finished cell = done 4 at cell
  run_alone at (failed e) cell = subst HasEnded (sym (run-failed 4 at e cell)) tt
