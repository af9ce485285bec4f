-- ===== src/Stream/Buffers/Lossless.antt =====
-- `LosslessBuffer`: a full buffer refuses, and nothing that was accepted is lost or reordered.
use graph_core.Base.{
  ℕ, ◌≤◌, ◌≡◌, inl, inr, Bool, List, [], ◌∷◌, ◌++◌, Option, none, some, arith, length,
  length-append, is_empty, if◌then◌else◌, eqb, append_assoc,
}
use graph_core.Base.Results.{Result, ok, err}
use graph_core.Stream.Item.{StreamItem}
use graph_core.Stream.Buffers.Trace.{Trace, Call, pushes, pops, fresh, calls, calls_keep}
use graph_core.Stream.Buffers.{
  BufferError, zero_capacity, PushError, backpressure, pop_front, pop_front_cases,
}

pub record LosslessBuffer {ℓ} (T : Type ℓ) : Type ℓ where
  pub capacity : ℕ
  pub items : List (StreamItem T)

module _ {ℓ} {T : Type ℓ} where
  unfoldable pub new : ℕ → Result BufferError (LosslessBuffer T)
  new capacity =
      if eqb capacity 0 then err zero_capacity else ok (record { capacity = capacity; items = [] })

  unfoldable pub len : LosslessBuffer T → ℕ
  len b = length b.items

  unfoldable pub is_empty_buffer : LosslessBuffer T → Bool
  is_empty_buffer b = is_empty b.items

  unfoldable pub try_push :
      LosslessBuffer T
      → StreamItem T
      → LosslessBuffer T × Result (PushError (StreamItem T)) (Unit {0})
  try_push b item =
      if eqb (length b.items) b.capacity
      then (b, err (backpressure item))
      else (record b { items = b.items ++ item ∷ [] }, ok tt)

  unfoldable pub pop : LosslessBuffer T → LosslessBuffer T × Option (StreamItem T)
  pop b = let (front, rest) = pop_front b.items in (record b { items = rest }, front)

abbrev pub History {ℓ} : Type ℓ → Type ℓ
History T = Trace (LosslessBuffer T) (StreamItem T)

module _ {ℓ} {T : Type ℓ} where
  pub note_push :
      History T
      → StreamItem T
      → LosslessBuffer T × Result (PushError (StreamItem T)) (Unit {0})
      → History T
  note_push t item (b, ok _) = record t { buffer = b; accepted = t.accepted ++ item ∷ [] }
  note_push t item (b, _) = record t { buffer = b }

  pub note_pop : History T → LosslessBuffer T × Option (StreamItem T) → History T
  note_pop t (b, some item) = record t { buffer = b; removed = t.removed ++ item ∷ [] }
  note_pop t (b, none) = record t { buffer = b }

  pub call : History T → Call (StreamItem T) → History T
  unfolding note_push note_pop
  call t (pushes item) = note_push t item (try_push t.buffer item)
  call t pops = note_pop t (pop t.buffer)

  record Inv (capacity : ℕ) (t : History T) : Type ℓ where
    same_capacity : t.buffer.capacity ≡ capacity
    fifo : t.removed ++ t.buffer.items ≡ t.accepted
    bounded : length t.buffer.items ≤ capacity

  call-Inv :
      (capacity : ℕ) (t : History T) (c : Call (StreamItem T))
      → Inv capacity t
      → Inv capacity (call t c)
  unfolding call try_push pop
  call-Inv n t (pushes item) i = record {
    same_capacity = ground (arith, i.same_capacity);
    fifo = ground (arith, append_assoc t.removed t.buffer.items (item ∷ []));
    bounded = ground (arith, length-append t.buffer.items (item ∷ []));
  }
  call-Inv n t pops i = elim (pop_front_cases t.buffer.items) [
    | inl (e, p) ↦ record {
      same_capacity = ground (arith, i.same_capacity);
      fifo = ground (arith, i.fifo, p);
      bounded = ground (arith, i.bounded, p);
    }
    | inr (x, xs, e, p) ↦ record {
      same_capacity = ground (arith, i.same_capacity);
      fifo = ground (arith, i.fifo, p, e, append_assoc t.removed (x ∷ []) xs);
      bounded = ground (arith, i.bounded, p, e);
    }
  ]

  -- Whatever the client pushes and pops, what came out and then what is pending is what was
  -- accepted, in order, and no more items are pending than the capacity that `new` was given.
  pub lossless_fifo :
      (capacity : ℕ) (b : LosslessBuffer T) (cs : List (Call (StreamItem T)))
      → new capacity ≡ ok b
      → let t = calls call (fresh b) cs in
        (t.removed ++ t.buffer.items ≡ t.accepted) × (length t.buffer.items ≤ capacity)
  unfolding new
  lossless_fifo capacity b cs e =
      let i =
        calls_keep (Inv capacity) call (call-Inv capacity) (fresh b) cs
          (record { same_capacity = ground arith; fifo = ground arith; bounded = ground arith }) in
      (i.fifo, i.bounded)
