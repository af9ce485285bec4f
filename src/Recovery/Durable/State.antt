-- ===== src/Recovery/Durable/State.antt =====
-- `DurableRunState` and its queries.
use graph_core.Base.{Bool, not, List, [], Option, none, some, filter, last, if◌then◌else◌}
use graph_core.Base.Order.{◌==◌}
use graph_core.Base.BTreeMap.{BTreeMap, keys, values, get, contains_key}
use graph_core.Core.Ident.{Ident, ident_ord}
use graph_core.Recovery.Model.{
  OperationId, AttemptId, operation_ord, attempt_ord, EffectIntent, DispatchRecord, OutcomeRecord,
  RecoveredEffectState, not_prepared, prepared, outcome_known, outcome_unknown,
}
use graph_core.Recovery.Durable.Facts.{
  RunId, StoreRevision, AttemptAdmission, CancellationRecord, IdempotencyKey, DurableMutation,
  initial,
}

pub record DurableRunState : Type 0 where
  pub run_id : RunId
  pub revision : StoreRevision
  pub admissions : BTreeMap AttemptId AttemptAdmission
  pub admission_history : List AttemptAdmission
  pub intents : BTreeMap OperationId EffectIntent
  pub task_operations : BTreeMap Ident OperationId
  pub cancellations : BTreeMap Ident CancellationRecord
  pub dispatches : BTreeMap AttemptId DispatchRecord
  pub dispatch_history : List DispatchRecord
  pub outcomes : BTreeMap AttemptId OutcomeRecord
  pub outcome_history : List OutcomeRecord
  pub idempotency : BTreeMap IdempotencyKey (List DurableMutation × StoreRevision)

abbrev pub new : RunId → DurableRunState
new run_id = record {
  run_id = run_id;
  revision = initial;
  admissions = [];
  admission_history = [];
  intents = [];
  task_operations = [];
  cancellations = [];
  dispatches = [];
  dispatch_history = [];
  outcomes = [];
  outcome_history = [];
  idempotency = [];
}

unfoldable pub attempts : DurableRunState → List AttemptAdmission
attempts s = s.admission_history

unfoldable pub attempt : DurableRunState → AttemptId → Option AttemptAdmission
attempt s a = get a s.admissions

unfoldable pub intent : DurableRunState → OperationId → Option EffectIntent
intent s op = get op s.intents

unfoldable pub intents : DurableRunState → List EffectIntent
intents s = values s.intents

unfoldable pub cancellation : DurableRunState → Ident → Option CancellationRecord
cancellation s task = get task s.cancellations

unfoldable pub cancellations : DurableRunState → List CancellationRecord
cancellations s = values s.cancellations

unfoldable pub is_cancelled : DurableRunState → Ident → Bool
is_cancelled s task = contains_key task s.cancellations

unfoldable pub dispatches : DurableRunState → OperationId → List DispatchRecord
dispatches s op = filter (λ d. d.operation_id == op) s.dispatch_history

unfoldable pub latest_dispatch : DurableRunState → OperationId → Option DispatchRecord
latest_dispatch s op = last (dispatches s op)

unfoldable pub outcome_for_attempt : DurableRunState → AttemptId → Option OutcomeRecord
outcome_for_attempt s a = get a s.outcomes

unfoldable pub outcome_history : DurableRunState → OperationId → List OutcomeRecord
outcome_history s op = filter (λ o. o.operation_id == op) s.outcome_history

unfoldable pub latest_outcome : DurableRunState → OperationId → Option OutcomeRecord
latest_outcome s op = elim (latest_dispatch s op) [
  | none ↦ none
  | some d ↦ outcome_for_attempt s d.attempt_id
]

unfoldable pub effect_state : DurableRunState → OperationId → RecoveredEffectState
effect_state s op =
    if not (contains_key op s.intents) then not_prepared else elim (latest_dispatch s op) [
      | none ↦ prepared
      | some d ↦ elim (outcome_for_attempt s d.attempt_id) [
        | none ↦ outcome_unknown
        | some o ↦ outcome_known o.outcome
      ]
    ]

unfoldable pub operation_ids : DurableRunState → List OperationId
operation_ids s = keys s.intents

unfoldable pub operation_for_task : DurableRunState → Ident → Option OperationId
operation_for_task s task = get task s.task_operations
