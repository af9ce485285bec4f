-- ===== src/Stream/Tests.antt =====
-- Runs of crates/execution-stream/src/lib.rs, and the properties at concrete inputs.
use graph_core.Base.{
  ℕ, ◌≡◌, refl, ◌≢◌, ◌≤◌, ◌<◌, ◌⊎◌, false, List, [], ◌∷◌, ◌++◌, some, length, arith,
}
use Prim.Native.Nat.{max}
use graph_core.Base.Results.{ok, err}
use graph_core.Base.Order.{◌==◌, ==_iff, nat_ord, list_ord, ord_by, lex}
use graph_core.Core.Ident.{Ident, ident_ord}
use graph_core.Stream.Item.{Sequence, StreamItem, checked_next, sequence_ord}
use graph_core.Stream.Item
use graph_core.Stream.Sequencer.{StreamSequencer, exhausted_stream, emit}
use graph_core.Stream.Sequencer
use graph_core.Stream.Tracker.{
  SequenceTracker, SequenceObservation, gap, stale, stream_mismatch, classify, is_newer, observe,
}
use graph_core.Stream.Tracker
use graph_core.Stream.Tracker.Laws.{floor, IsLast, Describes, observe_lem}
use graph_core.Stream.Delivery.{deliver_all, gapless, delivery_in_order, emit_exhausts}
use graph_core.Stream.Buffers.{backpressure}
use graph_core.Stream.Buffers.Trace.{Call, pushes, pops, calls, fresh}
use graph_core.Stream.Buffers.Lossless.{LosslessBuffer, lossless_fifo}
use graph_core.Stream.Buffers.Lossless
use graph_core.Stream.Buffers.Lossy.{LossyBuffer, lossy_fifo, lossy_keeps_latest, push_all}
use graph_core.Stream.Buffers.Lossy
use graph_core.Stream.Buffers.Coalescing.{Eq, KeyedStreamItem, CoalescingBuffer, try_push}
use graph_core.Stream.Buffers.Coalescing.Laws.{others, try_push_lem}

abbrev stream : Ident
stream = record { value = 0x73 ∷ [] }

abbrev item_at : ℕ → StreamItem ℕ
item_at n = record { stream_id = stream; sequence = record { value = n }; payload = n }

abbrev seen_two : SequenceTracker
seen_two = record { stream_id = stream; last = some (record { value = 2 }) }

jump_is_a_gap : observe seen_two (item_at 5) ≡ (
  record { stream_id = stream; last = some (record { value = 5 }) },
  ok (gap (record { value = 3 }) (record { value = 5 })),
)
unfolding observe classify is_newer checked_next sequence_ord ident_ord list_ord ord_by nat_ord lex
jump_is_a_gap = refl

observe_lem_example :
    ((stream ≢ stream)
      × (observe seen_two (item_at 5) ≡ (seen_two, err (stream_mismatch stream stream))))
    ⊎ ((stream ≡ stream)
        × ((observe seen_two (item_at 5)).1 ≡ ok (classify seen_two.last (record { value = 5 })))
        × Describes seen_two.last
            (record { value = 5 })
            (classify seen_two.last (record { value = 5 }))
        × (floor (observe seen_two (item_at 5)).0.last ≡ max 2 5)
        × IsLast (observe seen_two (item_at 5)).0.last
        × ((observe seen_two (item_at 5)).0.stream_id ≡ stream))
observe_lem_example =
    observe_lem seen_two (item_at 5) (omega arith, omega arith) (omega arith, omega arith)

abbrev payloads : List ℕ
payloads = 10 ∷ 20 ∷ []

delivery_in_order_example :
    deliver_all (Sequencer.new stream) (Tracker.new stream) payloads ≡ gapless 0 payloads
delivery_in_order_example = delivery_in_order stream payloads (omega arith)

abbrev at_max : StreamSequencer
at_max = record { stream_id = stream; next_sequence = Item.max; exhausted = false }

emit_exhausts_example :
    ((emit {T = ℕ} at_max 1).1
      ≡ ok (record { stream_id = stream; sequence = Item.max; payload = 1 }))
    × (emit {T = ℕ} (emit {T = ℕ} at_max 1).0 2
        ≡ ((emit {T = ℕ} at_max 1).0, err (exhausted_stream stream Item.max)))
emit_exhausts_example = emit_exhausts {T = ℕ} at_max 1 2 refl refl

abbrev some_calls : List (Call (StreamItem ℕ))
some_calls =
    pushes (item_at 1) ∷ pushes (item_at 2) ∷ pushes (item_at 3) ∷ pops ∷ pushes (item_at 4) ∷ []

abbrev lossless_two : LosslessBuffer ℕ
lossless_two = record { capacity = 2; items = [] }

lossless_fifo_example :
    let t = calls Lossless.call (fresh lossless_two) some_calls in
    (t.removed ++ t.buffer.items ≡ t.accepted) × (length t.buffer.items ≤ 2)
unfolding Lossless.new
lossless_fifo_example = lossless_fifo 2 lossless_two some_calls refl

abbrev lossy_two : LossyBuffer ℕ
lossy_two = record { capacity = 2; items = [] }

lossy_fifo_example :
    let t = calls Lossy.call (fresh lossy_two) some_calls in
    (t.removed ++ t.buffer.items ≡ t.accepted) × (length t.buffer.items ≤ 2)
unfolding Lossy.new
lossy_fifo_example = lossy_fifo 2 lossy_two some_calls refl

instance number_keys : Eq ℕ
number_keys = record { beq = λ a b. a == b; beq_iff = ==_iff }

abbrev keyed : ℕ → ℕ → KeyedStreamItem ℕ ℕ
keyed key n = record { key = key; item = item_at n }

abbrev one_pending : CoalescingBuffer ℕ ℕ
one_pending = record { capacity = 1; items = keyed 7 1 ∷ [] }

try_push_lem_example :
    ((try_push one_pending (keyed 7 2) ≡ (
      record { capacity = 1; items = others (keyed 7 2) (keyed 7 1 ∷ []) ++ keyed 7 2 ∷ [] },
      ok tt,
    ))
      × (length (others (keyed 7 2) (keyed 7 1 ∷ [])) < 1))
    ⊎ ((try_push one_pending (keyed 7 2) ≡ (one_pending, err (backpressure (keyed 7 2))))
        × (others (keyed 7 2) (keyed 7 1 ∷ []) ≡ keyed 7 1 ∷ [])
        × (length (keyed 7 1 ∷ []) ≡ 1))
try_push_lem_example =
    try_push_lem one_pending (keyed 7 2)
      (record { same_capacity = refl; bounded = omega arith; distinct = (tt, tt) })
