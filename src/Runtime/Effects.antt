-- ===== src/Runtime/Effects.antt =====
-- `dispatch_effect`, `recover` and `cancel_task`.
use graph_core.Base.{
  Bool, true, false, not, [], ◌∷◌, ◌++◌, Option, none, some, is_some, if◌then◌else◌,
}
use graph_core.Base.Results.{ok, panic}
use graph_core.Base.Texts.{codes}
use graph_core.Base.BTreeMap.{insert, contains_key}
use graph_core.Core.Ident.{Ident, ident_ord}
use graph_core.Workflow.Topology.{task}
use graph_core.Workflow.Facts.{is_completed}
use graph_core.Workflow.Graph.{complete}
use graph_core.Recovery.Model.{
  OperationId, AttemptId, idempotent, non_idempotent, EffectIntent, DispatchRecord,
  RecoveredEffectState, prepared, outcome_unknown, outcome_known, not_prepared, RecoveryAction,
  complete_without_reexecution, RecoveryDecision,
}
use graph_core.Recovery.Journal.{
  intent, state, operation_for_task, latest_dispatch, known_outcome, persist_dispatch,
}
use graph_core.Recovery.Decision.{classify_recovery}
use graph_core.Recovery.Durable.Facts.{record_dispatch, record_cancellation}
use graph_core.Runtime.State.{
  Cancellation, not_dispatched, already_dispatched, Runtime, RuntimeError, workflow, journal,
  unknown_task, cancelled_before_dispatch, cancelled_after_dispatch, reconciliation_required,
  outcome_already_known,
}
use graph_core.Runtime.Action.{
  Action, ◌>>=◌, ◌>>◌, pure, fail, convert, gets, expects, modify, map_ok,
}
use graph_core.Runtime.Commit.{commit_durable, persist_fact}
use graph_core.Runtime.Attempts.{attempt_for_task, pending_attempt, or_begin, begin_attempt}
use graph_core.Runtime.Events.{emit_completed}

-- The error of a cancelled task.
abbrev pub cancelled_error : EffectIntent → OperationId → RecoveredEffectState → RuntimeError
cancelled_error i operation_id outcome_unknown = cancelled_after_dispatch i.task_id operation_id
cancelled_error i operation_id _ = cancelled_before_dispatch i.task_id

-- The `match` on the state: the attempt that is dispatched.
unfoldable pub choose_attempt : EffectIntent → OperationId → RecoveredEffectState → Action AttemptId
choose_attempt i operation_id prepared r =
    or_begin (pending_attempt r i.task_id operation_id) i.task_id (some operation_id) r
choose_attempt i operation_id outcome_unknown r = elim i.semantics [
  | non_idempotent ↦ fail (reconciliation_required operation_id) r
  | idempotent ↦ begin_attempt i.task_id (some operation_id) r
]
choose_attempt i operation_id (outcome_known _) r = fail (outcome_already_known operation_id) r
choose_attempt i operation_id not_prepared r = (r, panic)

unfoldable pub record_effect_dispatch : OperationId → AttemptId → Action AttemptId
record_effect_dispatch operation_id attempt_id = do
  let dispatch : DispatchRecord = record { operation_id = operation_id; attempt_id = attempt_id }
  persist_fact (λ j. persist_dispatch j dispatch) (codes "dispatch:" ++ attempt_id.id.value)
      (record_dispatch dispatch)
  pure attempt_id

-- `dispatch_effect` once the intent is found.
unfoldable pub dispatch_intent : OperationId → EffectIntent → Action AttemptId
dispatch_intent operation_id i r =
    if contains_key i.task_id r.cancelled
    then fail (cancelled_error i operation_id (state r.journal operation_id)) r
    else (choose_attempt i operation_id (state r.journal operation_id)
          >>= record_effect_dispatch operation_id)
        r

unfoldable pub dispatch_effect : OperationId → Action AttemptId
dispatch_effect operation_id =
    gets journal (λ r. intent r.journal operation_id) >>= dispatch_intent operation_id

-- `self.workflow.complete(..)?`.
unfoldable pub complete_task : Ident → Action (Unit {0})
complete_task task_id r =
    let (w, result) = complete r.workflow task_id in
    (record r { workflow = w }, map_ok (λ _. tt) (convert workflow result))

-- The known success is applied, unless the workflow has it.
unfoldable pub apply_success : OperationId → Action (Unit {0})
apply_success operation_id = do
  i ← gets journal (λ r. intent r.journal operation_id)
  outcome ← expects (λ r. known_outcome r.journal operation_id)
  λ r.
      if is_completed r.workflow.facts i.task_id
      then (r, ok tt)
      else (complete_task i.task_id >> emit_completed i.task_id outcome.attempt_id) r

abbrev pub is_completion : RecoveryAction → Bool
is_completion complete_without_reexecution = true
is_completion _ = false

unfoldable pub recover : OperationId → Action RecoveryDecision
recover operation_id = do
  decision ← gets journal (λ r. classify_recovery r.workflow r.journal operation_id)
  if is_completion decision.action then apply_success operation_id else pure tt
  pure decision

-- The attempt that a cancellation names.
abbrev pub cancelled_attempt : Runtime → Ident → Option OperationId → Option AttemptId
cancelled_attempt r task_id none = none
cancelled_attempt r task_id (some op) = attempt_for_task r task_id (some op)

-- What `cancel_task` reports.
abbrev pub report_cancellation : Runtime → Ident → Option OperationId → Cancellation
report_cancellation r task_id none = not_dispatched task_id
report_cancellation r task_id (some op) = elim (latest_dispatch r.journal op) [
  | none ↦ not_dispatched task_id
  | some dispatch ↦ already_dispatched task_id op dispatch.attempt_id
]

unfoldable pub cancel_task : Ident → Action Cancellation
cancel_task task_id r =
    if not (is_some (task r.workflow.topology task_id))
    then fail (unknown_task task_id) r
    else let operation_id = operation_for_task r.journal task_id in
      (commit_durable (codes "cancel:" ++ task_id.value) (
            record_cancellation (record {
              run_id = r.run_id;
              task_id = task_id;
              operation_id = operation_id;
              attempt_id = cancelled_attempt r task_id operation_id;
            })
            ∷ [])
          >>= λ _.
              modify (λ s. record s { cancelled = insert task_id tt s.cancelled })
              >> pure (report_cancellation r task_id operation_id))
        r
