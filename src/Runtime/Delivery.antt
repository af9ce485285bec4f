-- ===== src/Runtime/Delivery.antt =====
-- The drains of the three streams, and the retry of a retained lifecycle event.
use graph_core.Base.{
  suc, ◌≡◌, ◌<◌, refl, false, List, [], ◌∷◌, ◌++◌, Option, none, some, length, arith, eqb,
}
use graph_core.Base.Results.{ok, err}
use graph_core.Stream.Item.{StreamItem}
use graph_core.Stream.Buffers.{pop_front}
use graph_core.Stream.Buffers.Lossless
use graph_core.Stream.Buffers.Lossy
use graph_core.Stream.Buffers.Coalescing
use graph_core.Runtime.State.{RuntimeEvent, Runtime, TaskAttempt, execution_backpressure}
use graph_core.Runtime.Step.{step}
use graph_core.Runtime.Events.{
  enqueue_execution, drain, drain_lossless, drain_coalescing, drain_lossy, drain_execution_events,
  drain_progress_events, drain_telemetry_events, retry_execution_event,
}

module _ {ℓ κ} {B : Type ℓ} {I : Type κ} (pop : B → B × Option I) (holding : List I → B)
    (empties : pop (holding []) ≡ (holding [], none))
    (pops : (x : I) (xs : List I) → pop (holding (x ∷ xs)) ≡ (holding xs, some x)) where
  drain-holding : (xs : List I) → drain pop (suc (length xs)) (holding xs) ≡ ok (holding [], xs)
  unfolding drain
  drain-holding [] = ground (arith, empties)
  drain-holding (x ∷ xs) = ground (arith, pops x xs, drain-holding xs)

-- A drain hands over all that is pending, in order, leaves its queue empty and changes nothing else.
pub drain_events_lem :
    (r : Runtime)
    → (drain_execution_events r ≡ (
      record r { execution_events = record (r.execution_events) { items = [] } },
      ok r.execution_events.items,
    ))
      × (drain_progress_events r ≡ (
        record r { progress_events = record (r.progress_events) { items = [] } },
        ok r.progress_events.items,
      ))
      × (drain_telemetry_events r ≡ (
        record r { telemetry_events = record (r.telemetry_events) { items = [] } },
        ok r.telemetry_events.items,
      ))
unfolding drain_execution_events drain_progress_events drain_telemetry_events drain_lossless
    drain_coalescing drain_lossy Lossless.pop Coalescing.pop Lossy.pop pop_front
drain_events_lem r = (
  rw
      (drain-holding Lossless.pop (λ xs. record (r.execution_events) { items = xs }) refl
        (λ _ _. refl) r.execution_events.items)
      refl,
  rw
      (drain-holding Coalescing.pop (λ xs. record (r.progress_events) { items = xs }) refl
        (λ _ _. refl) r.progress_events.items)
      refl,
  rw
      (drain-holding Lossy.pop (λ xs. record (r.telemetry_events) { items = xs }) refl (λ _ _. refl)
        r.telemetry_events.items)
      refl,
)

-- While an attempt is retained because its start could not be announced, every step is refused with
-- that announcement. After a drain, a retry with any item announces it: the attempt is on the list,
-- its announcement is all that is pending, and no attempt is retained.
pub retry_after_drain :
    (r : Runtime) (attempt : TaskAttempt) (pending item : StreamItem RuntimeEvent)
    → r.pending_started ≡ some (attempt, pending)
    → 0 < r.execution_events.capacity
    → (step r ≡ (r, err (execution_backpressure pending)))
      × (retry_execution_event item (drain_execution_events r).0 ≡ (
        record r {
          execution_events = record (r.execution_events) { items = pending ∷ [] };
          attempts = r.attempts ++ attempt ∷ [];
          pending_started = none;
        },
        ok tt,
      ))
unfolding step retry_execution_event enqueue_execution Lossless.try_push
retry_after_drain r attempt pending item e room =
    let drained = (drain_events_lem r).0 in
    let empty : eqb 0 r.execution_events.capacity ≡ false = ground arith in
    (simp (step, e), simp (drained, e, empty))
