-- ===== src/Stream/Buffers/Lossy.antt =====
-- `LossyBuffer`: a full buffer drops its oldest item, and order is kept.
use graph_core.Base.{
  ℕ, ◌≤◌, ◌<◌, ◌≡◌, refl, ap, sym, ◌⊎◌, inl, inr, Bool, true, false, List, [], ◌∷◌, ◌++◌, Option,
  none, some, arith, length, length-append, is_empty, if◌then◌else◌, eqb, eqb_of_eq, eqb_of_ne,
  to_list, drop, drop_none, ◌-◌, ◌≢◌, Bool-cases, append-nil, append_assoc,
}
use graph_core.Base.Results.{Result, ok, err}
use graph_core.Stream.Item.{StreamItem}
use graph_core.Stream.Buffers.Trace.{Trace, Call, pushes, pops, fresh, calls, calls_keep}
use graph_core.Stream.Buffers.{BufferError, zero_capacity, pop_front, pop_front_cases}

pub record LossyBuffer {ℓ} (T : Type ℓ) : Type ℓ where
  pub capacity : ℕ
  pub items : List (StreamItem T)

module _ {ℓ} {T : Type ℓ} where
  unfoldable pub new : ℕ → Result BufferError (LossyBuffer T)
  new capacity =
      if eqb capacity 0 then err zero_capacity else ok (record { capacity = capacity; items = [] })

  unfoldable pub len : LossyBuffer T → ℕ
  len b = length b.items

  unfoldable pub is_empty_buffer : LossyBuffer T → Bool
  is_empty_buffer b = is_empty b.items

  -- A full buffer drops its oldest item and returns it.
  unfoldable pub push : LossyBuffer T → StreamItem T → LossyBuffer T × Option (StreamItem T)
  push b item =
      let (dropped, rest) =
        if eqb (length b.items) b.capacity then pop_front b.items else (none, b.items) in
      (record b { items = rest ++ item ∷ [] }, dropped)

  unfoldable pub pop : LossyBuffer T → LossyBuffer T × Option (StreamItem T)
  pop b = let (front, rest) = pop_front b.items in (record b { items = rest }, front)

abbrev pub History {ℓ} : Type ℓ → Type ℓ
History T = Trace (LossyBuffer T) (StreamItem T)

module _ {ℓ} {T : Type ℓ} where
  pub note_push : History T → StreamItem T → LossyBuffer T × Option (StreamItem T) → History T
  note_push t item (b, dropped) = record t {
    buffer = b;
    accepted = t.accepted ++ item ∷ [];
    removed = t.removed ++ to_list dropped;
  }

  pub note_pop : History T → LossyBuffer T × Option (StreamItem T) → History T
  note_pop t (b, some item) = record t { buffer = b; removed = t.removed ++ item ∷ [] }
  note_pop t (b, none) = record t { buffer = b }

  pub call : History T → Call (StreamItem T) → History T
  unfolding note_push note_pop
  call t (pushes item) = note_push t item (push t.buffer item)
  call t pops = note_pop t (pop t.buffer)

  record Inv (capacity : ℕ) (t : History T) : Type ℓ where
    positive : 0 < capacity
    same_capacity : t.buffer.capacity ≡ capacity
    fifo : t.removed ++ t.buffer.items ≡ t.accepted
    bounded : length t.buffer.items ≤ capacity

  push_full :
      (b : LossyBuffer T) (item x : StreamItem T) (xs : List (StreamItem T))
      → length b.items ≡ b.capacity
      → b.items ≡ x ∷ xs
      → push b item ≡ (record b { items = xs ++ item ∷ [] }, some x)
  unfolding push pop_front
  push_full b item x xs h e =
      rw (eqb_of_eq (length b.items) b.capacity h, push) (rw (e, pop_front) refl)

  push_room :
      (b : LossyBuffer T) (item : StreamItem T)
      → length b.items ≢ b.capacity
      → push b item ≡ (record b { items = b.items ++ item ∷ [] }, none)
  unfolding push
  push_room b item h = rw (eqb_of_ne (length b.items) b.capacity h, push) refl

  -- Either the buffer has room, or it is full and its oldest item comes out.
  pub push_cases :
      (n : ℕ) (b : LossyBuffer T) (item : StreamItem T)
      → 0 < n
      → b.capacity ≡ n
      → length b.items ≤ n
      → ((length b.items < n) × (push b item ≡ (record b { items = b.items ++ item ∷ [] }, none)))
        ⊎ ((x : StreamItem T) × (xs : List (StreamItem T)) × (b.items ≡ x ∷ xs)
            × (length (x ∷ xs) ≡ n)
            × (push b item ≡ (record b { items = xs ++ item ∷ [] }, some x)))
  push_cases n b item pos cap le = by_items b.items refl (Bool-cases (eqb (length b.items) n))
    where
      by_items :
          (l : List (StreamItem T))
          → b.items ≡ l
          → (eqb (length b.items) n ≡ true) ⊎ (eqb (length b.items) n ≡ false)
          → ((length b.items < n)
              × (push b item ≡ (record b { items = b.items ++ item ∷ [] }, none)))
            ⊎ ((x : StreamItem T) × (xs : List (StreamItem T)) × (b.items ≡ x ∷ xs)
                × (length (x ∷ xs) ≡ n)
                × (push b item ≡ (record b { items = xs ++ item ∷ [] }, some x)))
      by_items l e (inr h) = inl (ground arith, push_room b item (λ q. ground arith))
      by_items [] e (inl h) = absurd (ground (arith, ap length e))
      by_items (x ∷ xs) e (inl h) =
          inr (x, xs, e, ground (arith, ap length e), push_full b item x xs (ground arith) e)

  call-Inv : (n : ℕ) (t : History T) (c : Call (StreamItem T)) → Inv n t → Inv n (call t c)
  unfolding call pop note_push
  call-Inv n t (pushes item) i =
      elim (push_cases n t.buffer item i.positive i.same_capacity i.bounded) [
        | inl (room, p) ↦ record {
          positive = i.positive;
          same_capacity = ground (arith, i.same_capacity, p);
          fifo = ground (
            arith,
            i.fifo,
            p,
            append-nil t.removed,
            append_assoc t.removed t.buffer.items (item ∷ []),
          );
          bounded = ground (arith, room, p, length-append t.buffer.items (item ∷ []));
        }
        | inr (x, xs, e, full, p) ↦ record {
          positive = i.positive;
          same_capacity = ground (arith, i.same_capacity, p);
          fifo = ground (
            arith,
            i.fifo,
            p,
            e,
            append_assoc t.removed (x ∷ []) (xs ++ item ∷ []),
            append_assoc t.removed (x ∷ xs) (item ∷ []),
          );
          bounded = ground (arith, p, full, length-append xs (item ∷ []));
        }
      ]
  call-Inv n t pops i = elim (pop_front_cases t.buffer.items) [
    | inl (e, p) ↦ record {
      positive = i.positive;
      same_capacity = ground (arith, i.same_capacity);
      fifo = ground (arith, i.fifo, p);
      bounded = ground (arith, i.bounded, p);
    }
    | inr (x, xs, e, p) ↦ record {
      positive = i.positive;
      same_capacity = ground (arith, i.same_capacity);
      fifo = ground (arith, i.fifo, p, e, append_assoc t.removed (x ∷ []) xs);
      bounded = ground (arith, i.bounded, p, e);
    }
  ]

  -- Whatever the client pushes and pops, what came out (dropped or popped) and then what is
  -- pending is all that was pushed, in order, and no more is pending than the capacity.
  pub lossy_fifo :
      (capacity : ℕ) (b : LossyBuffer T) (cs : List (Call (StreamItem T)))
      → new capacity ≡ ok b
      → let t = calls call (fresh b) cs in
        (t.removed ++ t.buffer.items ≡ t.accepted) × (length t.buffer.items ≤ capacity)
  unfolding new
  lossy_fifo capacity b cs e =
      let i = calls_keep (Inv capacity) call (call-Inv capacity) (fresh b) cs (record {
        positive = ground arith;
        same_capacity = ground arith;
        fifo = ground arith;
        bounded = ground arith;
      }) in
      (i.fifo, i.bounded)

  -- Pushes alone.
  pub push_all : LossyBuffer T → List (StreamItem T) → LossyBuffer T
  push_all b [] = b
  push_all b (x ∷ xs) = push_all (push b x).0 xs

  push_all-drop :
      (n : ℕ) (b : LossyBuffer T) (xs : List (StreamItem T))
      → 0 < n
      → b.capacity ≡ n
      → length b.items ≤ n
      → (push_all b xs).items ≡ drop (length (b.items ++ xs) - n) (b.items ++ xs)
  unfolding push_all
  push_all-drop n b [] pos cap le =
      rw append-nil (sym (drop_none (length b.items - n) b.items (omega arith)))
  push_all-drop n b (x ∷ xs) pos cap le = elim (push_cases n b x pos cap le) [
    | inl (room, p) ↦ ground (
      arith,
      p,
      push_all-drop n (push b x).0 xs pos,
      length-append b.items (x ∷ []),
      append_assoc b.items (x ∷ []) xs,
    )
    | inr (y, ys, e, full, p) ↦ ground (
      arith,
      p,
      e,
      push_all-drop n (push b x).0 xs pos,
      length-append ys (x ∷ []),
      append_assoc ys (x ∷ []) xs,
      length-append ys (x ∷ xs),
    )
  ]

  -- After pushes alone a buffer of capacity `n` holds the last `n` items that were pushed.
  pub lossy_keeps_latest :
      (capacity : ℕ) (b : LossyBuffer T) (xs : List (StreamItem T))
      → new capacity ≡ ok b
      → (push_all b xs).items ≡ drop (length xs - capacity) xs
  unfolding new
  lossy_keeps_latest capacity b xs e =
      let p : (0 < capacity) × (b.capacity ≡ capacity) × (b.items ≡ []) =
        (ground arith, ground arith, ground arith) in
      ground (arith, p, push_all-drop capacity b xs p.0 p.1)
