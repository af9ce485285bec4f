-- ===== src/Recovery/Model.antt =====
-- workflow-recovery/src/model.rs: identities, facts and decisions.
use graph_core.Base.{◌≡◌}
use graph_core.Base.Order.{Ord, ord_by}
use graph_core.Base.Results.{Result, ok, ◌>>=◌}
use graph_core.Core.Ident.{Text, Ident, InvalidId, ident_ord}
use graph_core.Core.Ident

pub record OperationId : Type 0 where
  pub id : Ident

pub record AttemptId : Type 0 where
  pub id : Ident

unfoldable pub operation_id_new : Text → Result InvalidId OperationId
operation_id_new value = Ident.new value >>= λ id. ok (record { id = id })

unfoldable pub attempt_id_new : Text → Result InvalidId AttemptId
attempt_id_new value = Ident.new value >>= λ id. ok (record { id = id })

pub OperationId-eq : (a b : OperationId) → a.id ≡ b.id → a ≡ b
OperationId-eq a b e = λ i. record { id = e i }

pub AttemptId-eq : (a b : AttemptId) → a.id ≡ b.id → a ≡ b
AttemptId-eq a b e = λ i. record { id = e i }

instance unfoldable pub operation_ord : Ord OperationId
operation_ord = ord_by (λ o. o.id) OperationId-eq

instance unfoldable pub attempt_ord : Ord AttemptId
attempt_ord = ord_by (λ a. a.id) AttemptId-eq

pub data EffectSemantics : Type 0 where
  idempotent non_idempotent : EffectSemantics

pub record EffectIntent : Type 0 where
  pub task_id : Ident
  pub operation_id : OperationId
  pub semantics : EffectSemantics

pub record DispatchRecord : Type 0 where
  pub operation_id : OperationId
  pub attempt_id : AttemptId

pub data KnownEffectOutcome : Type 0 where
  succeeded failed : KnownEffectOutcome

pub record OutcomeRecord : Type 0 where
  pub operation_id : OperationId
  pub attempt_id : AttemptId
  pub outcome : KnownEffectOutcome

pub data RecoveredEffectState : Type 0 where
  not_prepared : RecoveredEffectState
  prepared : RecoveredEffectState
  outcome_known : KnownEffectOutcome → RecoveredEffectState
  outcome_unknown : RecoveredEffectState

pub data RecoveryAction : Type 0 where
  execute retry_same_operation complete_without_reexecution reconcile no_action observe_failure
        invariant_violation :
      RecoveryAction

pub data RecoveryReason : Type 0 where
  prepared_not_dispatched : OperationId → RecoveryReason
  idempotent_outcome_unknown : OperationId → AttemptId → RecoveryReason
  non_idempotent_outcome_unknown : OperationId → AttemptId → RecoveryReason
  known_success : OperationId → AttemptId → RecoveryReason
  known_failure : OperationId → AttemptId → RecoveryReason
  workflow_already_completed : OperationId → Ident → RecoveryReason
  workflow_state_mismatch : OperationId → Ident → RecoveredEffectState → RecoveryReason
  operation_not_prepared : OperationId → RecoveryReason

pub record RecoveryDecision : Type 0 where
  pub action : RecoveryAction
  pub reason : RecoveryReason

pub KnownEffectOutcome-discrete : Discrete KnownEffectOutcome
KnownEffectOutcome-discrete = hlevel
