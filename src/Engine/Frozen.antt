-- ===== src/Engine/Frozen.antt =====
-- `EvaluationSession` of src/engine.rs: a frozen state of an engine.
use treetop_core.Prelude.{none, some, true, false}
use treetop_core.Error.{Result}
use treetop_core.Cedar.{Cedar}
use treetop_core.Cedar.Authorization.{Authorization}
use treetop_core.Types.Attr.{RequestContext}
use treetop_core.Types.Resource.{Request}
use treetop_core.Decision.{Decision, DecisionDiagnostics, PolicyVersion}
use treetop_core.Engine.Snapshot.{state_version}
use treetop_core.Engine.Evaluate.{evaluate_state}
use treetop_core.Engine.Publish.{State, Cell}
use treetop_core.Engine.Session.{into_decision}

module _ (c : Cedar) (a : Authorization c) where
  -- `EvaluationSession`: the state that it was created with.
  pub record EvaluationSession : Type 0 where
    pub state : State c a

  unfoldable pub session : Cell c a → EvaluationSession
  session engine = record { state = engine.current }

  unfoldable pub version : EvaluationSession → PolicyVersion
  unfolding state_version
  version s = state_version c a s.state.value

  unfoldable pub evaluate : EvaluationSession → Request c → Result (Decision c a)
  unfolding evaluate_state
  evaluate s request = into_decision c a (evaluate_state c a s.state.value request none false)

  unfoldable pub evaluate_with_context :
      EvaluationSession → Request c → RequestContext → Result (Decision c a)
  unfolding evaluate_state
  evaluate_with_context s request context =
      into_decision c a (evaluate_state c a s.state.value request (some context) false)

  unfoldable pub evaluate_with_diagnostics :
      EvaluationSession → Request c → Result (DecisionDiagnostics c a)
  unfolding evaluate_state
  evaluate_with_diagnostics s request = evaluate_state c a s.state.value request none true

  unfoldable pub evaluate_with_context_and_diagnostics :
      EvaluationSession → Request c → RequestContext → Result (DecisionDiagnostics c a)
  unfolding evaluate_state
  evaluate_with_context_and_diagnostics s request context =
      evaluate_state c a s.state.value request (some context) true
