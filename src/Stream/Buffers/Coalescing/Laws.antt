-- ===== src/Stream/Buffers/Coalescing/Laws.antt =====
-- What `try_push` does to the pending items.
use graph_core.Base.{
  ℕ, ◌+◌, ◌≤◌, ◌<◌, ◌≡◌, refl, ap, ◌∙◌, ◌⊎◌, inl, inr, true, false, not, List, [], ◌∷◌, ◌++◌,
  Option, none, some, length, arith, filter, All, All-append, Bool-cases, eqb,
}
use graph_core.Base.Results.{ok, err}
use graph_core.Base.Order.{==_iff}
use graph_core.Core.Ident.{ident_ord}
use graph_core.Stream.Buffers.{backpressure}
use graph_core.Stream.Buffers.Coalescing.{
  Eq, KeyedStreamItem, CoalescingBuffer, position, remove_at, same_identity, try_push,
}

module _ {ℓ} {K T : Type ℓ} ⦃e : Eq K⦄ where
  -- No two items of the list have the same stream and key.
  abbrev pub IsDistinct : List (KeyedStreamItem K T) → Type 0
  IsDistinct [] = Unit
  IsDistinct (x ∷ xs) = All (λ y. same_identity x y ≡ false) xs × IsDistinct xs

  -- The pending items of other identities, in order.
  abbrev pub others : KeyedStreamItem K T → List (KeyedStreamItem K T) → List (KeyedStreamItem K T)
  others item = filter (λ x. not (same_identity item x))

  same_identity_trans :
      (x y z : KeyedStreamItem K T)
      → same_identity x y ≡ true
      → same_identity x z ≡ same_identity y z
  same_identity_trans x y z h =
      ground (arith, e.beq_iff y.key x.key, ==_iff y.item.stream_id x.item.stream_id)

  same_identity_comm : (x y : KeyedStreamItem K T) → same_identity x y ≡ same_identity y x
  same_identity_comm x y = ground (
    arith,
    e.beq_iff y.key x.key,
    e.beq_iff x.key y.key,
    ==_iff y.item.stream_id x.item.stream_id,
    ==_iff x.item.stream_id y.item.stream_id,
  )

  others_none :
      (item : KeyedStreamItem K T) (xs : List (KeyedStreamItem K T))
      → All (λ y. same_identity item y ≡ false) xs
      → others item xs ≡ xs
  unfolding filter
  others_none item [] a = refl
  others_none item (x ∷ xs) a = rw (a.0) (ap (◌∷◌ x) (others_none item xs a.1))

  All-same :
      (item x : KeyedStreamItem K T) (xs : List (KeyedStreamItem K T))
      → same_identity item x ≡ true
      → All (λ y. same_identity x y ≡ false) xs
      → All (λ y. same_identity item y ≡ false) xs
  All-same item x [] h a = tt
  All-same item x (y ∷ ys) h a = (same_identity_trans item x y h ∙ a.0, All-same item x ys h a.1)

  abbrev AtPosition : KeyedStreamItem K T → List (KeyedStreamItem K T) → Option ℕ → Type ℓ
  AtPosition item xs none = others item xs ≡ xs
  AtPosition item xs (some i) =
      (remove_at i xs ≡ others item xs) × (length (others item xs) + 1 ≡ length xs)

  position-AtPosition :
      (item : KeyedStreamItem K T) (xs : List (KeyedStreamItem K T))
      → IsDistinct xs
      → AtPosition item xs (position (same_identity item) xs)
  unfolding position remove_at filter
  position-AtPosition item [] d = refl
  position-AtPosition item (x ∷ xs) d = elim (Bool-cases (same_identity item x)) [
    | inl h ↦
        let rest = others_none item xs (All-same item x xs h d.0) in
        ground (arith, h, rest, ap length rest)
    | inr h ↦ by_rest (position (same_identity item) xs) refl (position-AtPosition item xs d.1) h
  ]
    where
      by_rest :
          (o : Option ℕ)
          → position (same_identity item) xs ≡ o
          → AtPosition item xs (position (same_identity item) xs)
          → same_identity item x ≡ false
          → AtPosition item (x ∷ xs) (position (same_identity item) (x ∷ xs))
      by_rest none q r h = ground arith
      by_rest (some i) q r h = ground arith

  All-others :
      (P : KeyedStreamItem K T → Type 0) (item : KeyedStreamItem K T)
      (xs : List (KeyedStreamItem K T))
      → All P xs
      → All P (others item xs)
  unfolding filter
  All-others P item [] a = tt
  All-others P item (x ∷ xs) a = ground (arith, All-others P item xs a.1)

  -- The other identities, and then the item itself, are still distinct.
  pub IsDistinct-others :
      (item : KeyedStreamItem K T) (xs : List (KeyedStreamItem K T))
      → IsDistinct xs
      → IsDistinct (others item xs ++ item ∷ [])
  unfolding filter
  IsDistinct-others item [] d = (tt, tt)
  IsDistinct-others item (x ∷ xs) d = elim (Bool-cases (same_identity item x)) [
    | inl h ↦ rw (h, others) (IsDistinct-others item xs d.1)
    | inr h ↦
        rw (h, others)
          (
            All-append (λ y. same_identity x y ≡ false) (others item xs) (item ∷ [])
                (All-others (λ y. same_identity x y ≡ false) item xs d.0)
                (same_identity_comm x item ∙ h, tt),
            IsDistinct-others item xs d.1,
          )
  ]

  -- What holds of the pending items under a capacity.
  pub record IsBounded (capacity : ℕ) (b : CoalescingBuffer K T) : Type ℓ where
    pub same_capacity : b.capacity ≡ capacity
    pub bounded : length b.items ≤ capacity
    pub distinct : IsDistinct b.items

  -- On a bounded buffer of distinct identities a push is refused when the buffer is full and no
  -- pending item has the stream and key of the new one: the item comes back and nothing changes.
  -- Otherwise the items of other identities leave room, and the new item goes to the end behind
  -- them; they keep their order.
  pub try_push_lem :
      (b : CoalescingBuffer K T) (item : KeyedStreamItem K T)
      → IsBounded b.capacity b
      → ((try_push b item ≡ (record b { items = others item b.items ++ item ∷ [] }, ok tt))
          × (length (others item b.items) < b.capacity))
        ⊎ ((try_push b item ≡ (b, err (backpressure item)))
            × (others item b.items ≡ b.items)
            × (length b.items ≡ b.capacity))
  unfolding try_push
  try_push_lem b item i =
      by_position (position (same_identity item) b.items) refl
        (position-AtPosition item b.items i.distinct)
    where
      by_position :
          (o : Option ℕ)
          → position (same_identity item) b.items ≡ o
          → AtPosition item b.items (position (same_identity item) b.items)
          → ((try_push b item ≡ (record b { items = others item b.items ++ item ∷ [] }, ok tt))
              × (length (others item b.items) < b.capacity))
            ⊎ ((try_push b item ≡ (b, err (backpressure item)))
                × (others item b.items ≡ b.items)
                × (length b.items ≡ b.capacity))
      by_position (some index) q r =
          let at : AtPosition item b.items (some index) = rw q at r in
          inl (rw (q, try_push) (rw (at.0) refl), omega (arith, at.1, i.bounded))
      by_position none q r =
          let same : others item b.items ≡ b.items = rw q at r in
          elim (Bool-cases (eqb (length b.items) b.capacity)) [
            | inl full ↦ inr (rw (q, full, try_push) refl, same, ground arith)
            | inr room ↦
                inl (rw (q, room, try_push) (rw same refl), rw same (ground (arith, i.bounded)))
          ]
