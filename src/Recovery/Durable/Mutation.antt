-- ===== src/Recovery/Durable/Mutation.antt =====
-- `apply_mutation`: an arm changes the state only where it returns `Ok`, so it returns the new one.
use graph_core.Base.{
  Bool, true, false, not, ◌&&◌, [], ◌∷◌, ◌++◌, Option, none, some, ite, if◌then◌else◌,
}
use graph_core.Base.Results.{Result, ok, err, ensure, ok_or, ◌>>=◌, ◌>>◌}
use graph_core.Base.Order.{◌==◌}
use graph_core.Base.BTreeMap.{get, insert, contains_key}
use graph_core.Core.Ident.{ident_ord}
use graph_core.Recovery.Model.{
  OperationId, operation_ord, attempt_ord, EffectIntent, DispatchRecord, OutcomeRecord,
  KnownEffectOutcome-discrete,
}
use graph_core.Recovery.Durable.Facts.{
  run_ord, AttemptAdmission, CancellationRecord, CancellationRecord-discrete, EffectIntent-discrete,
  DurableMutation, admit_attempt, record_intent, record_cancellation, record_dispatch,
  record_outcome, StoreError, StoreInvariant, attempt_id_reuse, dispatch_without_admission,
  dispatch_attempt_mismatch, outcome_without_admission, outcome_without_dispatch,
  outcome_attempt_mismatch, conflicting_outcome, task_operation_conflict, dispatch_cancelled,
  cancellation_lineage_mismatch, conflicting_cancellation, invariant_violation,
}
use graph_core.Recovery.Durable.State.{DurableRunState}

abbrev pub Update : Type 0
Update = Result StoreError DurableRunState

abbrev pub violation {ℓ} : {A : Type ℓ} → StoreInvariant → Result StoreError A
violation i = err (invariant_violation i)

-- `a != b` on optional operations.
unfoldable pub same_operation : Option OperationId → Option OperationId → Bool
same_operation none none = true
same_operation (some a) (some b) = a == b
same_operation _ _ = false

unfoldable pub apply_admission : DurableRunState → AttemptAdmission → Update
apply_admission s a =
    if not (a.run_id == s.run_id)
    then violation (attempt_id_reuse a.attempt_id)
    else if contains_key a.attempt_id s.admissions
    then violation (attempt_id_reuse a.attempt_id)
    else ok (record s {
      admissions = insert a.attempt_id a s.admissions;
      admission_history = s.admission_history ++ a ∷ [];
    })

unfoldable pub apply_intent : DurableRunState → EffectIntent → Update
apply_intent s i = elim (get i.operation_id s.intents) [
  | some existing ↦
      ite (EffectIntent-discrete existing i) (ok s)
        (violation (task_operation_conflict i.task_id existing.operation_id i.operation_id))
  | none ↦ elim (get i.task_id s.task_operations) [
    | some existing ↦ violation (task_operation_conflict i.task_id existing i.operation_id)
    | none ↦ ok (record s {
      task_operations = insert i.task_id i.operation_id s.task_operations;
      intents = insert i.operation_id i s.intents;
    })
  ]
]

-- The cancelled operation, if one is named, must own the task.
unfoldable pub owns_task : DurableRunState → CancellationRecord → Bool
owns_task s c = elim c.operation_id [
  | none ↦ true
  | some op ↦ same_operation (get c.task_id s.task_operations) (some op)
]

-- The cancelled attempt, if one is named, must be admitted for the task and the operation.
unfoldable pub admits_attempt : DurableRunState → CancellationRecord → Bool
admits_attempt s c = elim c.attempt_id [
  | none ↦ true
  | some attempt ↦ elim (get attempt s.admissions) [
    | none ↦ false
    | some a ↦ a.task_id == c.task_id && same_operation a.operation_id c.operation_id
  ]
]

unfoldable pub apply_cancellation : DurableRunState → CancellationRecord → Update
apply_cancellation s c =
    if not (c.run_id == s.run_id)
    then violation (cancellation_lineage_mismatch c.task_id)
    else elim (get c.task_id s.cancellations) [
      | some existing ↦
          ite (CancellationRecord-discrete existing c) (ok s)
            (violation (conflicting_cancellation c.task_id))
      | none ↦
          if not (owns_task s c && admits_attempt s c)
          then violation (cancellation_lineage_mismatch c.task_id)
          else ok (record s { cancellations = insert c.task_id c s.cancellations })
    ]

-- The guards of `RecordDispatch` once the intent and the admission are found.
unfoldable pub check_dispatch :
    DurableRunState
    → DispatchRecord
    → EffectIntent
    → AttemptAdmission
    → Result StoreError (Unit {0})
check_dispatch s d i a = do
  ensure (same_operation a.operation_id (some d.operation_id))
      (invariant_violation (dispatch_attempt_mismatch d.attempt_id d.operation_id))
  ensure (i.task_id == a.task_id)
      (invariant_violation (dispatch_attempt_mismatch d.attempt_id d.operation_id))
  ensure
      (not (contains_key a.task_id s.cancellations && not (contains_key d.attempt_id s.dispatches)))
      (invariant_violation (dispatch_cancelled a.task_id))
  ensure (not (contains_key d.attempt_id s.dispatches))
      (invariant_violation (dispatch_attempt_mismatch d.attempt_id d.operation_id))

unfoldable pub apply_dispatch : DurableRunState → DispatchRecord → Update
apply_dispatch s d = do
  i ←
      ok_or (get d.operation_id s.intents)
        (invariant_violation (dispatch_without_admission d.attempt_id))
  a ←
      ok_or (get d.attempt_id s.admissions)
        (invariant_violation (dispatch_without_admission d.attempt_id))
  check_dispatch s d i a
  ok (record s {
    dispatches = insert d.attempt_id d s.dispatches;
    dispatch_history = s.dispatch_history ++ d ∷ [];
  })

-- The end of `RecordOutcome`.
unfoldable pub settle_outcome : DurableRunState → OutcomeRecord → Update
settle_outcome s o = elim (get o.attempt_id s.outcomes) [
  | some existing ↦
      ite (KnownEffectOutcome-discrete existing.outcome o.outcome) (ok s)
        (violation (conflicting_outcome o.attempt_id existing.outcome o.outcome))
  | none ↦ ok (record s {
    outcomes = insert o.attempt_id o s.outcomes;
    outcome_history = s.outcome_history ++ o ∷ [];
  })
]

unfoldable pub apply_outcome : DurableRunState → OutcomeRecord → Update
apply_outcome s o = do
  a ←
      ok_or (get o.attempt_id s.admissions)
        (invariant_violation (outcome_without_admission o.attempt_id))
  d ←
      ok_or (get o.attempt_id s.dispatches)
        (invariant_violation (outcome_without_dispatch o.attempt_id))
  ensure (d.operation_id == o.operation_id && same_operation a.operation_id (some o.operation_id))
      (invariant_violation (outcome_attempt_mismatch o.attempt_id o.operation_id))
  settle_outcome s o

unfoldable pub apply_mutation : DurableRunState → DurableMutation → Update
apply_mutation s (admit_attempt a) = apply_admission s a
apply_mutation s (record_intent i) = apply_intent s i
apply_mutation s (record_cancellation c) = apply_cancellation s c
apply_mutation s (record_dispatch d) = apply_dispatch s d
apply_mutation s (record_outcome o) = apply_outcome s o
