-- ===== src/Runtime/State.antt =====
-- Attempts, observations, results, errors, and the state of `Runtime`.
use graph_core.Base.{ℕ, List, Option}
use graph_core.Base.BTreeMap.{BTreeMap, BTreeSet}
use graph_core.Base.Lookup.{find_by}
use graph_core.Core.Ident.{Text, Ident, ident_ord}
use graph_core.Stream.Item.{StreamItem}
use graph_core.Stream.Sequencer.{StreamSequencer, SequenceError}
use graph_core.Stream.Buffers.Lossless.{LosslessBuffer}
use graph_core.Stream.Buffers.Lossy.{LossyBuffer}
use graph_core.Stream.Buffers.Coalescing.{CoalescingBuffer}
use graph_core.Workflow.Mutation.{WorkflowGraphError}
use graph_core.Workflow.Graph.{WorkflowGraph}
use graph_core.Recovery.Model.{OperationId, AttemptId, RecoveryAction}
use graph_core.Recovery.Journal.{DurableJournal, JournalError}
use graph_core.Recovery.Durable.Facts.{RunId, StoreRevision, CapabilityReplayIdentity, StoreError}
use graph_core.Recovery.Durable.Store.{InMemoryDurableStore}
use graph_core.Capability.Generation.{Generation}
use graph_core.Capability.Entry.{CapabilityHandle, EntryId, ScopeError}
use graph_core.Runtime.Config.{TaskConfig}

pub record CapabilityPin : Type 0 where
  pub capability_id : Ident
  pub generation : Generation
  pub entry_id : EntryId
  pub replay_identity : CapabilityReplayIdentity
  pub handle : CapabilityHandle

pub record TaskAttempt : Type 0 where
  pub run_id : RunId
  pub task_id : Ident
  pub attempt_id : AttemptId
  pub operation_id : Option OperationId
  pub capability_pins : List CapabilityPin

unfoldable pub capability : TaskAttempt → Ident → Option CapabilityPin
capability a capability_id =
    find_by (λ (pin : CapabilityPin). pin.capability_id) capability_id a.capability_pins

pub data RuntimeEvent : Type 0 where
  task_started : (run_id : RunId) (task_id : Ident) (attempt_id : AttemptId) → RuntimeEvent
  task_progress : (task_id : Ident) (progress : ℕ) → RuntimeEvent
  task_completed : (run_id : RunId) (task_id : Ident) (attempt_id : AttemptId) → RuntimeEvent
  telemetry : (message : Text) → RuntimeEvent

pub data StepResult : Type 0 where
  completed : (task_id : Ident) (attempt_id : AttemptId) → StepResult
  effect_pending :
      (task_id : Ident) (attempt_id : AttemptId) (operation_id : OperationId) → StepResult
  blocked :
      (task_id : Ident) (operation_id : Option OperationId) (action : RecoveryAction) → StepResult
  idle : StepResult

pub data Cancellation : Type 0 where
  not_dispatched : (task_id : Ident) → Cancellation
  already_dispatched :
      (task_id : Ident) (operation_id : OperationId) (attempt_id : AttemptId) → Cancellation

pub data RuntimeError : Type 0 where
  workflow : WorkflowGraphError → RuntimeError
  capability_error : ScopeError → RuntimeError
  journal : JournalError → RuntimeError
  store : StoreError → RuntimeError
  stream : SequenceError → RuntimeError
  unknown_task : Ident → RuntimeError
  missing_capability : (task_id capability_id : Ident) → RuntimeError
  capability_replay_mismatch : (task_id capability_id : Ident) → RuntimeError
  attempt_id_exhausted : RuntimeError
  cancelled_before_dispatch : Ident → RuntimeError
  cancelled_after_dispatch : (task_id : Ident) (operation_id : OperationId) → RuntimeError
  reconciliation_required : OperationId → RuntimeError
  outcome_already_known : OperationId → RuntimeError
  progress_backpressure : RuntimeError
  execution_backpressure : (item : StreamItem RuntimeEvent) → RuntimeError

-- `context` is what `capability_runtime.context().get` answers at present: the scope behind it is
-- shared, so it can change between two calls of the runtime.
pub record Runtime : Type 0 where
  pub run_id : RunId
  pub workflow : WorkflowGraph
  pub context : Ident → Option CapabilityHandle
  pub journal : DurableJournal
  pub store : InMemoryDurableStore
  pub store_revision : StoreRevision
  pub task_configs : BTreeMap Ident TaskConfig
  pub attempts : List TaskAttempt
  pub pending_started : Option (TaskAttempt × StreamItem RuntimeEvent)
  pub cancelled : BTreeSet Ident
  pub next_attempt_number : ℕ
  pub execution_sequencer : StreamSequencer
  pub progress_sequencer : StreamSequencer
  pub telemetry_sequencer : StreamSequencer
  pub execution_events : LosslessBuffer RuntimeEvent
  pub progress_events : CoalescingBuffer Ident RuntimeEvent
  pub telemetry_events : LossyBuffer RuntimeEvent
