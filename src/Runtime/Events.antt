-- ===== src/Runtime/Events.antt =====
-- The three streams of observations: emission, draining, and the retry of a lifecycle item.
use graph_core.Base.{ℕ, zero, suc, List, [], ◌∷◌, ◌++◌, Option, none, some, length}
use graph_core.Base.Results
use graph_core.Base.Order.{◌==◌, ==_iff}
use graph_core.Base.Results.{Result, ok, err, panic, out_of_fuel}
use graph_core.Core.Ident.{Text, Ident, ident_ord}
use graph_core.Stream.Item.{StreamItem}
use graph_core.Stream.Sequencer.{emit}
use graph_core.Stream.Buffers.{PushError, backpressure}
use graph_core.Stream.Buffers.Lossless
use graph_core.Stream.Buffers.Lossless.{LosslessBuffer}
use graph_core.Stream.Buffers.Lossy
use graph_core.Stream.Buffers.Lossy.{LossyBuffer}
use graph_core.Stream.Buffers.Coalescing
use graph_core.Stream.Buffers.Coalescing.{Eq, KeyedStreamItem, CoalescingBuffer}
use graph_core.Recovery.Model.{AttemptId}
use graph_core.Runtime.State.{
  TaskAttempt, RuntimeEvent, task_progress, task_completed, telemetry, RuntimeError, stream,
  progress_backpressure, execution_backpressure,
}
use graph_core.Runtime.Action.{Action, Outcome, onward, ◌>>=◌, ◌>>◌, pure, convert, gets, modify}

abbrev pub rejected_execution : PushError (StreamItem RuntimeEvent) → RuntimeError
rejected_execution (backpressure item) = execution_backpressure item

unfoldable pub enqueue_execution : StreamItem RuntimeEvent → Action (Unit {0})
enqueue_execution item r =
    let (events, result) = Lossless.try_push r.execution_events item in
    (record r { execution_events = events }, convert rejected_execution result)

-- `self.execution_sequencer.emit(..)?`.
unfoldable pub emit_execution : RuntimeEvent → Action (StreamItem RuntimeEvent)
emit_execution event r =
    let (sequencer, result) = emit r.execution_sequencer event in
    (record r { execution_sequencer = sequencer }, convert stream result)

unfoldable pub emit_completed : Ident → AttemptId → Action (Unit {0})
emit_completed task_id attempt_id r =
    (emit_execution (task_completed r.run_id task_id attempt_id) >>= enqueue_execution) r

-- `K: Eq` at `Id`.
instance unfoldable pub ident_eq : Eq Ident
ident_eq = record { beq = λ a b. a == b; beq_iff = ==_iff }

abbrev rejected_progress : PushError (KeyedStreamItem Ident RuntimeEvent) → RuntimeError
rejected_progress (backpressure _) = progress_backpressure

unfoldable pub push_progress : KeyedStreamItem Ident RuntimeEvent → Action (Unit {0})
push_progress keyed r =
    let (events, result) = Coalescing.try_push r.progress_events keyed in
    (record r { progress_events = events }, convert rejected_progress result)

unfoldable pub emit_progress : Ident → ℕ → Action (Unit {0})
emit_progress task_id progress r =
    let (sequencer, item) = emit r.progress_sequencer (task_progress task_id progress) in
    onward (record r { progress_sequencer = sequencer }) (convert stream item)
      (λ item. push_progress (record { key = task_id; item = item }))

unfoldable pub emit_telemetry : Text → Action (Unit {0})
emit_telemetry message r =
    let (sequencer, item) = emit r.telemetry_sequencer (telemetry message) in
    onward (record r { telemetry_sequencer = sequencer }) (convert stream item)
      (λ item. modify (λ r. record r { telemetry_events = (Lossy.push r.telemetry_events item).0 }))

-- `while let Some(item) = buffer.pop()`. The fuel bounds the number of pops.
unfoldable pub drain {ℓ κ} :
    {B : Type ℓ} {I : Type κ} → (B → B × Option I) → ℕ → B → Result ⊥ (B × List I)
drain pop zero b = out_of_fuel
drain pop (suc fuel) b = elim (pop b).1 [
  | none ↦ ok ((pop b).0, [])
  | some item ↦ Results.◌>>=◌ (drain pop fuel (pop b).0) (λ d. ok (d.0, item ∷ d.1))
]

-- One pop for each item, and one that finds none.
unfoldable pub drain_lossless {ℓ} :
    {T : Type ℓ} → LosslessBuffer T → Result ⊥ (LosslessBuffer T × List (StreamItem T))
drain_lossless b = drain Lossless.pop (suc (length b.items)) b

unfoldable pub drain_coalescing {ℓ} :
    {K T : Type ℓ}
    → CoalescingBuffer K T
    → Result ⊥ (CoalescingBuffer K T × List (KeyedStreamItem K T))
drain_coalescing b = drain Coalescing.pop (suc (length b.items)) b

unfoldable pub drain_lossy {ℓ} :
    {T : Type ℓ} → LossyBuffer T → Result ⊥ (LossyBuffer T × List (StreamItem T))
drain_lossy b = drain Lossy.pop (suc (length b.items)) b

abbrev never : ⊥ → RuntimeError
never = elim [ ]

unfoldable pub drain_execution_events : Action (List (StreamItem RuntimeEvent))
drain_execution_events = do
  drained ← gets never (λ r. drain_lossless r.execution_events)
  modify (λ r. record r { execution_events = drained.0 })
  pure (drained.1)

unfoldable pub drain_progress_events : Action (List (KeyedStreamItem Ident RuntimeEvent))
drain_progress_events = do
  drained ← gets never (λ r. drain_coalescing r.progress_events)
  modify (λ r. record r { progress_events = drained.0 })
  pure (drained.1)

unfoldable pub drain_telemetry_events : Action (List (StreamItem RuntimeEvent))
drain_telemetry_events = do
  drained ← gets never (λ r. drain_lossy r.telemetry_events)
  modify (λ r. record r { telemetry_events = drained.0 })
  pure (drained.1)

-- The end of `begin_attempt`: an attempt whose item is rejected is retained with it.
abbrev pub settle_started : TaskAttempt → Outcome (Unit {0}) → Outcome AttemptId
settle_started attempt (r, ok _) =
    (record r { attempts = r.attempts ++ attempt ∷ [] }, ok attempt.attempt_id)
settle_started attempt (r, err (execution_backpressure item)) =
    (record r { pending_started = some (attempt, item) }, err (execution_backpressure item))
settle_started attempt (r, err e) = (r, err e)
settle_started attempt (r, panic) = (r, panic)
settle_started attempt (r, out_of_fuel) = (r, out_of_fuel)

-- The retained attempt is taken out, and put back if its item is rejected again.
abbrev pub settle_retry :
    TaskAttempt → StreamItem RuntimeEvent → Outcome (Unit {0}) → Outcome (Unit {0})
settle_retry attempt item (r, ok _) = (record r { attempts = r.attempts ++ attempt ∷ [] }, ok tt)
settle_retry attempt item (r, err e) = (record r { pending_started = some (attempt, item) }, err e)
settle_retry attempt item (r, panic) = (r, panic)
settle_retry attempt item (r, out_of_fuel) = (r, out_of_fuel)

unfoldable pub retry_execution_event : StreamItem RuntimeEvent → Action (Unit {0})
retry_execution_event item r = elim r.pending_started [
  | none ↦ enqueue_execution item r
  | some (attempt, pending_item) ↦
      settle_retry attempt pending_item
        (enqueue_execution pending_item (record r { pending_started = none }))
]
