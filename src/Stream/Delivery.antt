-- ===== src/Stream/Delivery.antt =====
-- A tracker that sees what a sequencer emits.
use graph_core.Base.{
  ℕ, ◌+◌, ◌≤◌, ◌<◌, ◌≡◌, refl, true, false, List, [], ◌∷◌, Option, none, some, arith, length,
  if◌then◌else◌, eqb,
}
use graph_core.Base.Words.{u64_max}
use graph_core.Base.Results.{Result, ok, err}
use graph_core.Base.Order.{==_iff, nat_ord, ord_by}
use graph_core.Core.Ident.{Ident, ident_ord}
use graph_core.Stream.Item.{Sequence, StreamItem, max, checked_next, sequence_ord}
use graph_core.Stream.Sequencer.{StreamSequencer, SequenceError, exhausted_stream, advance, emit}
use graph_core.Stream.Sequencer
use graph_core.Stream.Tracker.{
  SequenceObservation, initial, in_order, gap, stale, SequenceTracker, StreamError, classify,
  is_newer, observe,
}
use graph_core.Stream.Tracker
use graph_core.Stream.Tracker.Laws.{floor, IsLast}

abbrev Observed : Type 0
Observed = Result StreamError SequenceObservation

-- The tracker has seen `n` items, all that the sequencer has emitted.
record InStep (s : StreamSequencer) (k : SequenceTracker) (n : ℕ) : Type 0 where
  stream : s.stream_id ≡ k.stream_id
  seen : floor k.last ≡ n
  last : IsLast k.last
  next : n < u64_max → (s.exhausted ≡ false) × (s.next_sequence ≡ record { value = n + 1 })

classify_next :
    (last : Option Sequence) (n : ℕ)
    → IsLast last
    → floor last ≡ n
    → n < u64_max
    → (classify last (record { value = n + 1 }) ≡ (
        if eqb n 0
        then initial (record { value = n + 1 })
        else in_order (record { value = n + 1 })))
      × (is_newer last (record { value = n + 1 }) ≡ true)
unfolding classify is_newer checked_next sequence_ord ord_by nat_ord
classify_next none n h e b = ground arith
classify_next (some l) n h e b = ground arith

advance_next :
    (s : StreamSequencer) (n : ℕ)
    → s.exhausted ≡ false
    → s.next_sequence ≡ record { value = n + 1 }
    → n + 1 < u64_max
    → ((advance s).exhausted ≡ false) × ((advance s).next_sequence ≡ record { value = (n + 1) + 1 })
unfolding advance checked_next
advance_next s n e k h = ground arith

advance_stream : (s : StreamSequencer) → (advance s).stream_id ≡ s.stream_id
unfolding advance
advance_stream s = ground arith

module _ {ℓ} {T : Type ℓ} where
  -- Emits each payload and lets the tracker observe what is emitted.
  pub deliver_all : StreamSequencer → SequenceTracker → List T → List Observed
  deliver_all s k [] = []
  deliver_all s k (p ∷ ps) = elim (emit s p).1 [
    | ok item ↦ (observe k item).1 ∷ deliver_all (emit s p).0 (observe k item).0 ps
    | _ ↦ deliver_all (emit s p).0 k ps
  ]

  -- The reports of a gapless stream after `n` items.
  pub gapless : ℕ → List T → List Observed
  gapless n [] = []
  gapless n (p ∷ ps) =
      ok (
        if eqb n 0 then initial (record { value = n + 1 }) else in_order (record { value = n + 1 }))
      ∷ gapless (n + 1) ps

  step_lem :
      (s : StreamSequencer) (k : SequenceTracker) (n : ℕ) (p : T)
      → n < u64_max
      → InStep s k n
      → (item : StreamItem T) × ((emit s p).1 ≡ ok item)
        × ((observe k item).1
            ≡ ok (
                if eqb n 0
                then initial (record { value = n + 1 })
                else in_order (record { value = n + 1 })))
        × InStep (emit s p).0 (observe k item).0 (n + 1)
  unfolding emit observe
  step_lem s k n p h i =
      let (running, at_next) = i.next h in
      let (report, newer) = classify_next k.last n i.last i.seen h in
      let same = ==_iff s.stream_id k.stream_id in
      (
        record { stream_id = s.stream_id; sequence = s.next_sequence; payload = p },
        ground arith,
        ground (arith, same),
        record {
          stream = ground (arith, same, advance_stream s, i.stream);
          seen = ground (arith, same, at_next, newer);
          last = ground (arith, same, at_next, newer);
          next = λ b. ground (arith, advance_next s n running at_next b);
        },
      )

  deliver_all-gapless :
      (s : StreamSequencer) (k : SequenceTracker) (n : ℕ) (ps : List T)
      → n + length ps ≤ u64_max
      → InStep s k n
      → deliver_all s k ps ≡ gapless n ps
  unfolding deliver_all gapless
  deliver_all-gapless s k n [] h i = refl
  deliver_all-gapless s k n (p ∷ ps) h i =
      let (item, sent, report, i') = step_lem s k n p (omega arith) i in
      rw (sent, deliver_all)
        (rw
          (report, deliver_all-gapless (emit s p).0 (observe k item).0 (n + 1) ps (omega arith) i'))

  -- A fresh tracker that observes all that a fresh sequencer of the same stream emits, up to 2^64 - 1
  -- payloads, reports the first item as the first sequence and each later one as next in order.
  pub delivery_in_order :
      (id : Ident) (ps : List T)
      → length ps ≤ u64_max
      → deliver_all (Sequencer.new id) (Tracker.new id) ps ≡ gapless 0 ps
  unfolding Sequencer.new Tracker.new
  delivery_in_order id ps h =
      deliver_all-gapless (Sequencer.new id) (Tracker.new id) 0 ps (omega arith)
        (record { stream = refl; seen = refl; last = tt; next = λ b. (refl, refl) })

  -- The last sequence is emitted once, and after it every payload is refused and nothing changes.
  pub emit_exhausts :
      (s : StreamSequencer) (p q : T)
      → s.exhausted ≡ false
      → s.next_sequence ≡ max
      → let after = (emit s p).0 in
        ((emit s p).1 ≡ ok (record { stream_id = s.stream_id; sequence = max; payload = p }))
        × (emit after q ≡ (after, err (exhausted_stream s.stream_id max)))
  unfolding emit advance checked_next
  emit_exhausts s p q e k = ground arith
