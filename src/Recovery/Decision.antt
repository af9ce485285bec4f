-- ===== src/Recovery/Decision.antt =====
-- workflow-recovery/src/recovery.rs: `classify_recovery`.
pub mod Safety
use graph_core.Base.{Bool, true, false, Option, none, some, is_some, if◌then◌else◌, not}
use graph_core.Base.Results.{Result, ok, err, expect, ◌>>=◌}
use graph_core.Workflow.Topology.{task}
use graph_core.Workflow.Facts.{is_completed}
use graph_core.Workflow.Graph.{WorkflowGraph}
use graph_core.Recovery.Model.{
  OperationId, EffectIntent, EffectSemantics, idempotent, non_idempotent, KnownEffectOutcome,
  succeeded, failed, DispatchRecord, OutcomeRecord, RecoveredEffectState, not_prepared, prepared,
  outcome_known, outcome_unknown, RecoveryAction, execute, retry_same_operation,
  complete_without_reexecution, reconcile, no_action, observe_failure, invariant_violation,
  RecoveryReason, prepared_not_dispatched, idempotent_outcome_unknown,
  non_idempotent_outcome_unknown, known_success, known_failure, workflow_already_completed,
  workflow_state_mismatch, operation_not_prepared, RecoveryDecision,
}
use graph_core.Recovery.Journal.{
  DurableJournal, JournalError, latest_dispatch, known_outcome, state,
}
use graph_core.Recovery.Journal

abbrev Decided : Type 0
Decided = Result JournalError RecoveryDecision

abbrev decide : RecoveryAction → RecoveryReason → Decided
decide action reason = ok (record { action = action; reason = reason })

unfoldable pub invariant_decision :
    OperationId → EffectIntent → RecoveredEffectState → RecoveryDecision
invariant_decision op intent s = record {
  action = invariant_violation;
  reason = workflow_state_mismatch op intent.task_id s;
}

-- The arm of an unknown outcome.
unfoldable pub decide_unknown : OperationId → EffectIntent → Bool → DispatchRecord → Decided
decide_unknown op intent completed dispatch =
    if completed then ok (invariant_decision op intent outcome_unknown) else elim intent.semantics [
      | idempotent ↦ decide retry_same_operation (idempotent_outcome_unknown op dispatch.attempt_id)
      | non_idempotent ↦ decide reconcile (non_idempotent_outcome_unknown op dispatch.attempt_id)
    ]

-- The arm of a known outcome.
unfoldable pub decide_known :
    OperationId → EffectIntent → Bool → KnownEffectOutcome → OutcomeRecord → Decided
decide_known op intent true succeeded r =
    decide no_action (workflow_already_completed op intent.task_id)
decide_known op intent false succeeded r =
    decide complete_without_reexecution (known_success op r.attempt_id)
decide_known op intent true failed r = ok (invariant_decision op intent (outcome_known failed))
decide_known op intent false failed r = decide observe_failure (known_failure op r.attempt_id)

-- The `match` on the state.
unfoldable pub decide_state :
    DurableJournal → OperationId → EffectIntent → Bool → RecoveredEffectState → Decided
decide_state j op intent completed prepared =
    if completed
    then ok (invariant_decision op intent prepared)
    else decide execute (prepared_not_dispatched op)
decide_state j op intent completed outcome_unknown =
    expect (latest_dispatch j op) >>= decide_unknown op intent completed
decide_state j op intent completed (outcome_known outcome) =
    expect (known_outcome j op) >>= decide_known op intent completed outcome
decide_state j op intent completed not_prepared =
    decide invariant_violation (operation_not_prepared op)

unfoldable pub classify_recovery : WorkflowGraph → DurableJournal → OperationId → Decided
classify_recovery workflow j op = do
  intent ← Journal.intent j op
  if not (is_some (task workflow.topology intent.task_id))
      then ok (invariant_decision op intent (state j op))
      else decide_state j op intent (is_completed workflow.facts intent.task_id) (state j op)
