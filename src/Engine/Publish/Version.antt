-- ===== src/Engine/Publish/Version.antt =====
-- What the version in a decision says of the engine that gave it.
use treetop_core.Prelude.{
  ◌<◌, List, Option, none, some, Option-cases, inl, inr, Bool, ◌≡◌, refl, sym, subst, ◌∙◌,
}
use treetop_core.Error.{ok}
use treetop_core.Cedar.{Cedar}
use treetop_core.Cedar.Authorization.{Authorization}
use treetop_core.Types.Attr.{RequestContext}
use treetop_core.Types.Resource.{Request}
use treetop_core.Decision.{PolicyVersion, DecisionDiagnostics, version}
use treetop_core.Engine.Snapshot.{PolicySnapshot, EngineState, state_version, u64_max}
use treetop_core.Engine.Evaluate.{evaluate_state}
use treetop_core.Engine.Evaluate.Outcome.{evaluate_state-version}
use treetop_core.Engine.Publish.{Thread, World, Reachable}
use treetop_core.Engine.Publish.Reload.{AreInitial, start}
use treetop_core.Engine.Publish.Identity.{generation_identifies}

module _ (c : Cedar) (a : Authorization c) where
  -- A version names the text that was compiled, the time of it, the labels and the generation.
  abbrev pub Describes : PolicyVersion → EngineState c a → Type 0
  Describes v state =
      (v.hash ≡ state.policy.value.revision.hash)
      × (v.loaded_at ≡ state.policy.value.revision.loaded_at)
      × (v.generation ≡ state.generation)
      × (v.label_set ≡ elim state.label_registry [ none ↦ none | some registry ↦ registry.version ])

  state_version-Describes : (state : EngineState c a) → Describes (state_version c a state) state
  unfolding state_version
  state_version-Describes state = elim (Option-cases state.label_registry) [
    | inl e ↦ (refl, refl, refl, rw e refl)
    | inr (registry, e) ↦ (refl, refl, refl, rw e refl)
  ]

  evaluate_state-Describes :
      (state : EngineState c a) (request : Request c) (context : Option RequestContext)
      (include : Bool) (d : DecisionDiagnostics c a)
      → evaluate_state c a state request context include ≡ ok d
      → Describes (version c a d.decision) state
  evaluate_state-Describes state request context include d h =
      subst (λ v. Describes v state)
        (sym (evaluate_state-version c a state request context include d h))
        (state_version-Describes state)

  -- A decision's version describes the state that it was evaluated in, and tells that state from
  -- every other one of the engine: two decisions with one generation below `u64::MAX`, whatever was
  -- asked and whatever was published between them, were evaluated in the same state.
  pub version_identifies :
      (snapshot : PolicySnapshot c a) (ts : List (Thread c a)) (v w : World c a)
      (request request' : Request c) (context context' : Option RequestContext)
      (include include' : Bool) (d d' : DecisionDiagnostics c a)
      → AreInitial c a ts
      → Reachable c a (start c a snapshot ts) v
      → Reachable c a v w
      → evaluate_state c a v.cell.current.value request context include ≡ ok d
      → evaluate_state c a w.cell.current.value request' context' include' ≡ ok d'
      → (version c a d.decision).generation ≡ (version c a d'.decision).generation
      → (version c a d.decision).generation < u64_max
      → Describes (version c a d.decision) v.cell.current.value × (w.cell.current ≡ v.cell.current)
  version_identifies snapshot ts v w request request' context context' include include' d d' initial
        before later h h' same low =
      let own = evaluate_state-Describes v.cell.current.value request context include d h in
      let own' = evaluate_state-Describes w.cell.current.value request' context' include' d' h' in
      let (_, _, g, _) = own in
      let (_, _, g', _) = own' in
      (
        own,
        generation_identifies c a snapshot ts v w initial before later (sym g ∙ same ∙ g')
            (subst (λ n. n < u64_max) g low),
      )
