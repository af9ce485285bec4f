-- ===== src/Recovery/Journal.antt =====
-- workflow-recovery/src/journal.rs: `DurableJournal`, but for `from_durable_state` (see Store).
pub mod Invariant
pub mod History
pub mod Dispatch
use graph_core.Base.{
  ◌≡◌, Bool, not, List, [], ◌∷◌, ◌++◌, Option, none, some, is_some, unwrap_or, last, ite,
  if◌then◌else◌,
}
use graph_core.Base.Results.{Result, ok, err, ok_or, ensure, ◌>>=◌, ◌>>◌}
use graph_core.Base.Order.{◌==◌}
use graph_core.Base.BTreeMap.{BTreeMap, keys, get, insert, contains_key}
use graph_core.Core.Ident.{Ident, ident_ord}
use graph_core.Recovery.Model.{
  OperationId, AttemptId, operation_ord, attempt_ord, EffectIntent, DispatchRecord, OutcomeRecord,
  KnownEffectOutcome, KnownEffectOutcome-discrete, RecoveredEffectState, not_prepared, prepared,
  outcome_known, outcome_unknown,
}

pub data JournalInvariant : Type 0 where
  reserved : JournalInvariant

pub data JournalError : Type 0 where
  unknown_operation : OperationId → JournalError
  duplicate_intent : OperationId → JournalError
  dispatch_without_intent : OperationId → JournalError
  task_operation_conflict : Ident → OperationId → OperationId → JournalError
  duplicate_attempt : OperationId → AttemptId → JournalError
  outcome_without_dispatch : OperationId → AttemptId → JournalError
  attempt_mismatch : OperationId → AttemptId → OperationId → JournalError
  conflicting_outcome :
      OperationId → AttemptId → KnownEffectOutcome → KnownEffectOutcome → JournalError
  invariant_violation : JournalInvariant → JournalError
  workflow_state_mismatch : OperationId → Ident → RecoveredEffectState → JournalError

pub record DurableJournal : Type 0 where
  pub intents : BTreeMap OperationId EffectIntent
  pub task_operations : BTreeMap Ident OperationId
  pub dispatches : BTreeMap AttemptId DispatchRecord
  pub operation_attempts : BTreeMap OperationId (List AttemptId)
  pub outcomes : BTreeMap AttemptId OutcomeRecord

abbrev pub new : DurableJournal
new = record {
  intents = [];
  task_operations = [];
  dispatches = [];
  operation_attempts = [];
  outcomes = [];
}

abbrev pub Update : Type 0
Update = Result JournalError DurableJournal

-- A `&mut self` method changes the journal only where it returns `Ok`, so it returns the new one.
unfoldable pub persist_intent : DurableJournal → EffectIntent → Update
persist_intent j intent =
    if contains_key intent.operation_id j.intents
    then err (duplicate_intent intent.operation_id)
    else elim (get intent.task_id j.task_operations) [
      | some existing ↦ err (task_operation_conflict intent.task_id existing intent.operation_id)
      | none ↦ ok (record j {
        task_operations = insert intent.task_id intent.operation_id j.task_operations;
        intents = insert intent.operation_id intent j.intents;
      })
    ]

-- The attempts of an operation in dispatch order, `entry().or_default()`.
abbrev pub attempts : DurableJournal → OperationId → List AttemptId
attempts j op = unwrap_or [] (get op j.operation_attempts)

unfoldable pub persist_dispatch : DurableJournal → DispatchRecord → Update
persist_dispatch j dispatch =
    let op = dispatch.operation_id in
    let attempt = dispatch.attempt_id in
    if not (contains_key op j.intents)
    then err (dispatch_without_intent op)
    else if contains_key attempt j.dispatches
    then err (duplicate_attempt op attempt)
    else ok (record j {
      operation_attempts = insert op (attempts j op ++ attempt ∷ []) j.operation_attempts;
      dispatches = insert attempt dispatch j.dispatches;
    })

-- The end of `persist_outcome`: an outcome for an attempt of the operation.
unfoldable pub settle_outcome : DurableJournal → OutcomeRecord → Update
settle_outcome j outcome = elim (get outcome.attempt_id j.outcomes) [
  | some existing ↦ ite (KnownEffectOutcome-discrete existing.outcome outcome.outcome) (ok j) (
      err (
        conflicting_outcome outcome.operation_id outcome.attempt_id existing.outcome
          outcome.outcome))
  | none ↦ ok (record j { outcomes = insert outcome.attempt_id outcome j.outcomes })
]

unfoldable pub persist_outcome : DurableJournal → OutcomeRecord → Update
persist_outcome j outcome =
    let op = outcome.operation_id in
    let attempt = outcome.attempt_id in
    if not (contains_key op j.intents)
    then err (unknown_operation op)
    else elim (get attempt j.dispatches) [
      | none ↦ err (outcome_without_dispatch op attempt)
      | some dispatch ↦
          if not (dispatch.operation_id == op)
          then err (attempt_mismatch op attempt dispatch.operation_id)
          else settle_outcome j outcome
    ]

unfoldable pub intent : DurableJournal → OperationId → Result JournalError EffectIntent
intent j op = ok_or (get op j.intents) (unknown_operation op)

unfoldable pub operation_for_task : DurableJournal → Ident → Option OperationId
operation_for_task j task = get task j.task_operations

-- `operation_attempts.get(..).and_then(|attempts| attempts.last())`.
unfoldable pub last_attempt : DurableJournal → OperationId → Option AttemptId
last_attempt j op = elim (get op j.operation_attempts) [ none ↦ none | some as_ ↦ last as_ ]

unfoldable pub latest_dispatch : DurableJournal → OperationId → Option DispatchRecord
latest_dispatch j op = elim (last_attempt j op) [
  | none ↦ none
  | some attempt ↦ get attempt j.dispatches
]

unfoldable pub known_outcome : DurableJournal → OperationId → Option OutcomeRecord
known_outcome j op = elim (last_attempt j op) [
  | none ↦ none
  | some attempt ↦ get attempt j.outcomes
]

unfoldable pub state : DurableJournal → OperationId → RecoveredEffectState
state j op = if not (contains_key op j.intents) then not_prepared else elim (known_outcome j op) [
  | some outcome ↦ outcome_known outcome.outcome
  | none ↦ if is_some (latest_dispatch j op) then outcome_unknown else prepared
]

unfoldable pub operation_ids : DurableJournal → List OperationId
operation_ids j = keys j.intents
