-- ===== src/Engine/Publish/Identity.antt =====
-- What a generation says: as long as it is below `u64::MAX`, it belongs to one state of the engine.
use treetop_core.Prelude.{◌<◌, List, ◌≡◌, refl, ◌∙◌, inl, inr, arith}
use treetop_core.Cedar.{Cedar}
use treetop_core.Cedar.Authorization.{Authorization}
use treetop_core.Store.Layout.{PolicyStoreLayout}
use treetop_core.Partition.{layout_of}
use treetop_core.Prelude.{Option}
use treetop_core.Engine.Snapshot.{PolicySnapshot, next_generation, u64_max}
use treetop_core.Engine.Publish.{Thread, World, Step, step, Reachable, stay, more}
use treetop_core.Engine.Publish.Preserved.{WorldOk, Reachable-WorldOk}
use treetop_core.Engine.Publish.Reload.{
  AreInitial, start, start-WorldOk, generation_of, Step-generation, Reachable-generation,
  step_thread-Advances,
}

module _ (c : Cedar) (a : Authorization c) where
  -- A step with no new generation publishes nothing.
  Step-current :
      (layout : Option PolicyStoreLayout) {u w : World c a}
      → WorldOk c a layout u
      → Step c a u w
      → generation_of c a u ≡ generation_of c a w
      → generation_of c a u < u64_max
      → w.cell.current ≡ u.cell.current
  unfolding WorldOk next_generation
  Step-current layout (h, g, good, threads) (step loaded_at i t u at) same low =
      elim (step_thread-Advances c a layout h g u.cell loaded_at t good (threads i t at)) [
        | inl kept ↦ kept
        | inr next ↦ absurd (ground arith)
      ]

  Reachable-current :
      (layout : Option PolicyStoreLayout) {u w : World c a}
      → WorldOk c a layout u
      → Reachable c a u w
      → generation_of c a u ≡ generation_of c a w
      → generation_of c a u < u64_max
      → w.cell.current ≡ u.cell.current
  Reachable-current layout good (stay w) same low = refl
  Reachable-current layout good (more {u = u'} path last) same low =
      let good' = Reachable-WorldOk c a layout good path in
      let (up, bound) = Reachable-generation c a layout good (omega arith) path in
      let (up', _) = Step-generation c a layout good' last bound in
      Step-current layout good' last (omega arith) (omega arith)
      ∙ Reachable-current layout good path (omega arith) low

  -- Of the states that an engine goes through, two with one generation below `u64::MAX` are the same
  -- object: its policies, its schema and its labels.
  pub generation_identifies :
      (snapshot : PolicySnapshot c a) (ts : List (Thread c a)) (v w : World c a)
      → AreInitial c a ts
      → Reachable c a (start c a snapshot ts) v
      → Reachable c a v w
      → generation_of c a v ≡ generation_of c a w
      → generation_of c a v < u64_max
      → w.cell.current ≡ v.cell.current
  generation_identifies snapshot ts v w initial before later =
      let layout = layout_of c snapshot.sets in
      Reachable-current layout
        (Reachable-WorldOk c a layout (start-WorldOk c a snapshot ts initial) before) later
