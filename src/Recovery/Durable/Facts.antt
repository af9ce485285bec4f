-- ===== src/Recovery/Durable/Facts.antt =====
-- The identities, facts, requests and errors of the durable contract, with their equality tests.
use graph_core.Base.{
  ℕ, ◌≡◌, Bool, List, [], ◌∷◌, Option, none, some, is_empty, if◌then◌else◌, ℕ_discrete,
}
use graph_core.Base.Words.{checked_add}
use graph_core.Base.Results.{Result, ok, err, ◌>>=◌}
use graph_core.Base.Order.{Ord, ord_by, nat_ord, list_ord}
use graph_core.Core.Ident.{Text, Ident, InvalidId, ident_ord, trim}
use graph_core.Core.Ident
use graph_core.Recovery.Model.{
  OperationId, AttemptId, EffectIntent, DispatchRecord, OutcomeRecord, KnownEffectOutcome,
}

pub record RunId : Type 0 where
  pub id : Ident

unfoldable pub run_id_new : Text → Result InvalidId RunId
run_id_new value = Ident.new value >>= λ id. ok (record { id = id })

pub RunId-eq : (a b : RunId) → a.id ≡ b.id → a ≡ b
RunId-eq a b e = λ i. record { id = e i }

instance unfoldable pub run_ord : Ord RunId
run_ord = ord_by (λ r. r.id) RunId-eq

pub record StoreRevision : Type 0 where
  pub value : ℕ

abbrev pub initial : StoreRevision
initial = record { value = 0 }

unfoldable pub checked_next : StoreRevision → Option StoreRevision
checked_next r = elim (checked_add r.value 1) [ none ↦ none | some n ↦ some (record { value = n }) ]

pub StoreRevision-eq : (a b : StoreRevision) → a.value ≡ b.value → a ≡ b
StoreRevision-eq a b e = λ i. record { value = e i }

instance unfoldable pub store_revision_ord : Ord StoreRevision
store_revision_ord = ord_by (λ r. r.value) StoreRevision-eq

pub record CapabilityReplayIdentity : Type 0 where
  pub capability_id : Ident
  pub definition_identity : Text

pub record AttemptAdmission : Type 0 where
  pub run_id : RunId
  pub task_id : Ident
  pub attempt_id : AttemptId
  pub operation_id : Option OperationId
  pub capabilities : List CapabilityReplayIdentity

pub record CancellationRecord : Type 0 where
  pub run_id : RunId
  pub task_id : Ident
  pub operation_id : Option OperationId
  pub attempt_id : Option AttemptId

pub record IdempotencyKey : Type 0 where
  pub value : Text

pub IdempotencyKey-eq : (a b : IdempotencyKey) → a.value ≡ b.value → a ≡ b
IdempotencyKey-eq a b e = λ i. record { value = e i }

instance unfoldable pub key_ord : Ord IdempotencyKey
key_ord = ord_by (λ k. k.value) IdempotencyKey-eq

pub data DurableMutation : Type 0 where
  admit_attempt : AttemptAdmission → DurableMutation
  record_intent : EffectIntent → DurableMutation
  record_cancellation : CancellationRecord → DurableMutation
  record_dispatch : DispatchRecord → DurableMutation
  record_outcome : OutcomeRecord → DurableMutation

pub record CommitRequest : Type 0 where
  pub run_id : RunId
  pub expected_revision : StoreRevision
  pub idempotency_key : IdempotencyKey
  pub mutations : List DurableMutation

unfoldable pub single : RunId → StoreRevision → IdempotencyKey → DurableMutation → CommitRequest
single run expected key mutation = record {
  run_id = run;
  expected_revision = expected;
  idempotency_key = key;
  mutations = mutation ∷ [];
}

pub record CommitResult : Type 0 where
  pub revision : StoreRevision
  pub replayed : Bool

pub data StoreInvariant : Type 0 where
  attempt_id_reuse : AttemptId → StoreInvariant
  dispatch_without_admission : AttemptId → StoreInvariant
  dispatch_attempt_mismatch : AttemptId → OperationId → StoreInvariant
  outcome_without_admission : AttemptId → StoreInvariant
  outcome_without_dispatch : AttemptId → StoreInvariant
  outcome_attempt_mismatch : AttemptId → OperationId → StoreInvariant
  conflicting_outcome : AttemptId → KnownEffectOutcome → KnownEffectOutcome → StoreInvariant
  task_operation_conflict : Ident → OperationId → OperationId → StoreInvariant
  dispatch_cancelled : Ident → StoreInvariant
  cancellation_lineage_mismatch : Ident → StoreInvariant
  conflicting_cancellation : Ident → StoreInvariant

pub data StoreError : Type 0 where
  run_not_found : RunId → StoreError
  run_already_exists : RunId → StoreError
  revision_conflict : StoreRevision → StoreRevision → StoreError
  idempotency_conflict : IdempotencyKey → StoreError
  empty_idempotency_key : StoreError
  empty_commit : StoreError
  invariant_violation : StoreInvariant → StoreError
  revision_exhausted : StoreRevision → StoreError

unfoldable pub idempotency_key_new : Text → Result StoreError IdempotencyKey
idempotency_key_new value =
    if is_empty (trim value) then err empty_idempotency_key else ok (record { value = value })

-- The derived `PartialEq`.
pub EffectIntent-discrete : Discrete EffectIntent
EffectIntent-discrete = hlevel ℕ_discrete

pub CancellationRecord-discrete : Discrete CancellationRecord
CancellationRecord-discrete = hlevel ℕ_discrete

pub mutations-discrete : Discrete (List DurableMutation)
mutations-discrete = hlevel ℕ_discrete
