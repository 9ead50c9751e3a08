-- ===== src/Engine/Publish/Preserved.antt =====
-- Every step of every thread keeps the invariant of the shared cell.
use treetop_core.Prelude.{
  ℕ, String, Option, some, true, ◌≡◌, refl, sym, ap, ◌∙◌, subst, inl, inr, nat_beq, nat_beq_iff,
  get_elem?, get_elem?-set, Bool-cases,
}
use treetop_core.Error.{ok}
use treetop_core.Cedar.{Cedar}
use treetop_core.Cedar.Authorization.{Authorization}
use treetop_core.Store.Layout.{PolicyStoreLayout}
use treetop_core.Partition.{layout_of}
use treetop_core.Engine.Snapshot.{PolicySnapshot, EngineState}
use treetop_core.Engine.Publish.{
  State, Cell, set_label_registry, install_policy, install_policy_if_current, Thread, labelling,
  reloading, reload_compiled, replacing, replace_compiled, finished, failed, compile_for,
  step_thread, World, Step, step, Reachable, stay, more,
}
use treetop_core.Engine.Publish.Invariant.{
  StateOk, ThreadOk, ThreadOk-mono, CellOk, Kept, unchanged, published, compiled, compiled-fields,
}

module _ (c : Cedar) (a : Authorization c) (layout : Option PolicyStoreLayout) where
  module _ (h : ℕ → PolicySnapshot c a) (g : ℕ → EngineState c a) (cell : Cell c a)
      (good : CellOk c a layout h g cell) where
    compiled_for :
        (text : String) (schema : Option a.Schema) (loaded_at : String) (s : PolicySnapshot c a)
        → compile_for c a text schema loaded_at cell ≡ ok s
        → (s.schema ≡ schema) × (layout_of c s.sets ≡ layout)
    compiled_for text schema loaded_at s e =
        let (same, l) = compiled-fields c a text schema _ loaded_at s e in
        let (_, _, (_, _, l')) = good in (same, l ∙ l')

    -- Two states that a thread and the cell hold are one if their addresses are.
    pub expected-current :
        (expected : State c a)
        → StateOk c a layout h g cell.next_address expected
        → nat_beq expected.address cell.current.address ≡ true
        → expected.value ≡ cell.current.value
    expected-current expected (_, at, _) e =
        let (_, at', _) = good in
        at ∙ ap g ((nat_beq_iff expected.address cell.current.address).0 e) ∙ sym at'

    same_policy :
        (expected : State c a)
        → StateOk c a layout h g cell.next_address expected
        → nat_beq expected.value.policy.address cell.current.value.policy.address ≡ true
        → expected.value.policy.value ≡ cell.current.value.policy.value
    same_policy expected (_, _, (_, at, _)) e =
        let (_, _, (_, at', _)) = good in
        at
        ∙ ap h ((nat_beq_iff expected.value.policy.address cell.current.value.policy.address).0 e)
        ∙ sym at'

    step-Kept :
        (loaded_at : String) (t : Thread c a)
        → ThreadOk c a layout h g cell.next_address t
        → Kept c a layout h g cell (step_thread c a loaded_at t cell)
    unfolding step_thread set_label_registry install_policy install_policy_if_current
    step-Kept loaded_at (labelling registry) q = published c a layout h g cell good _ good.2
    step-Kept loaded_at (reloading text) q =
        let schema = cell.current.value.policy.value.schema in
        compiled c a layout h g cell good schema (compile_for c a text schema loaded_at cell)
          (reload_compiled text cell.current) (λ s e. compiled_for text schema loaded_at s e)
          (λ h' g' n' p now q e. (now, q, e))
    step-Kept loaded_at (reload_compiled text expected p) (s, q, k) =
        elim (Bool-cases (nat_beq expected.address cell.current.address)) [
          | inl e ↦ rw e (published c a layout h g cell good _ q)
          | inr e ↦
              rw e
                (elim (Bool-cases
                  (nat_beq expected.value.policy.address cell.current.value.policy.address)) [
                    | inl f ↦ rw f (
                        unchanged c a layout h g cell good (reload_compiled text cell.current p) (
                          good,
                          q,
                          k ∙ ap (λ (v : PolicySnapshot c a). v.schema) (same_policy expected s f),
                        ))
                    | inr f ↦ rw f (unchanged c a layout h g cell good (reloading text) tt)
                  ])
        ]
    step-Kept loaded_at (replacing text schema) q =
        compiled c a layout h g cell good (some schema)
          (compile_for c a text (some schema) loaded_at cell) replace_compiled
          (λ s e. compiled_for text (some schema) loaded_at s e) (λ h' g' n' p now q e. q)
    step-Kept loaded_at (replace_compiled p) q = published c a layout h g cell good _ q
    step-Kept loaded_at finished q = unchanged c a layout h g cell good finished tt
    step-Kept loaded_at (failed e) q = unchanged c a layout h g cell good (failed e) tt

  unfoldable pub WorldOk : World c a → Type 0
  WorldOk w =
      (h : ℕ → PolicySnapshot c a) × (g : ℕ → EngineState c a) × CellOk c a layout h g w.cell
      × ((i : ℕ) (t : Thread c a)
          → get_elem? w.threads i ≡ some t
          → ThreadOk c a layout h g w.cell.next_address t)

  Step-WorldOk : {w w' : World c a} → WorldOk w → Step c a w w' → WorldOk w'
  unfolding WorldOk
  Step-WorldOk (h, g, good, threads) (step loaded_at i t w at) =
      let (h', g', x, good', own) = step-Kept h g w.cell good loaded_at t (threads i t at) in
      let t' = (step_thread c a loaded_at t w.cell).0 in
      (
        h',
        g',
        good',
        λ j u at_j.
            let read = get_elem?-set w.threads i j t' at in
            elim (Bool-cases (nat_beq i j)) [
              | inl e ↦
                  let same : t' ≡ u = cc (sym read ∙ at_j ∙ refl, e) in
                  subst (ThreadOk c a layout h' g' _) same own
              | inr e ↦
                  let before : get_elem? w.threads j ≡ some u = sym (read ∙ rw e refl) ∙ at_j in
                  ThreadOk-mono c a layout x u (threads j u before)
            ],
      )

  pub Reachable-WorldOk : {v w : World c a} → WorldOk v → Reachable c a v w → WorldOk w
  Reachable-WorldOk good (stay w) = good
  Reachable-WorldOk good (more path last) = Step-WorldOk (Reachable-WorldOk good path) last
