-- ===== src/Stream/Buffers/Coalescing.antt =====
-- `CoalescingBuffer`: an item replaces the pending one of the same stream and key.
pub mod Laws
pub mod History
use graph_core.Base.{
  ℕ, zero, suc, ◌≡◌, ◌↔◌, Bool, true, false, ◌&&◌, List, [], ◌∷◌, ◌++◌, Option, none, some, length,
  is_empty, if◌then◌else◌, eqb,
}
use graph_core.Base.Results.{Result, ok, err}
use graph_core.Base.Order.{◌==◌}
use graph_core.Core.Ident.{Ident, ident_ord}
use graph_core.Stream.Item.{StreamItem}
use graph_core.Stream.Buffers.{BufferError, zero_capacity, PushError, backpressure, pop_front}

-- The bound `K: Eq`.
pub record Eq {ℓ} (K : Type ℓ) : Type ℓ where
  pub beq : K → K → Bool
  pub beq_iff : (a b : K) → (beq a b ≡ true) ↔ (a ≡ b)

pub record KeyedStreamItem {ℓ} (K T : Type ℓ) : Type ℓ where
  pub key : K
  pub item : StreamItem T

pub record CoalescingBuffer {ℓ} (K T : Type ℓ) : Type ℓ where
  pub capacity : ℕ
  pub items : List (KeyedStreamItem K T)

module _ {ℓ} {A : Type ℓ} where
  -- `Iterator::position`.
  unfoldable pub position : (A → Bool) → List A → Option ℕ
  position p [] = none
  position p (x ∷ xs) =
      let later = position p xs in
      if p x then some 0 else elim later [ none ↦ none | some i ↦ some (suc i) ]

  -- `VecDeque::remove`.
  unfoldable pub remove_at : ℕ → List A → List A
  remove_at i [] = []
  remove_at zero (x ∷ xs) = xs
  remove_at (suc i) (x ∷ xs) = x ∷ remove_at i xs

module _ {ℓ} {K T : Type ℓ} where
  unfoldable pub new : ℕ → Result BufferError (CoalescingBuffer K T)
  new capacity =
      if eqb capacity 0 then err zero_capacity else ok (record { capacity = capacity; items = [] })

  unfoldable pub len : CoalescingBuffer K T → ℕ
  len b = length b.items

  unfoldable pub is_empty_buffer : CoalescingBuffer K T → Bool
  is_empty_buffer b = is_empty b.items

  unfoldable pub pop : CoalescingBuffer K T → CoalescingBuffer K T × Option (KeyedStreamItem K T)
  pop b = let (front, rest) = pop_front b.items in (record b { items = rest }, front)

module _ {ℓ} {K T : Type ℓ} ⦃e : Eq K⦄ where
  -- The closure of `position`: the same key and the same stream.
  abbrev pub same_identity : KeyedStreamItem K T → KeyedStreamItem K T → Bool
  same_identity item existing =
      e.beq existing.key item.key && existing.item.stream_id == item.item.stream_id

  unfoldable pub try_push :
      CoalescingBuffer K T
      → KeyedStreamItem K T
      → CoalescingBuffer K T × Result (PushError (KeyedStreamItem K T)) (Unit {0})
  try_push b item = elim (position (same_identity item) b.items) [
    | some index ↦ (record b { items = remove_at index b.items ++ item ∷ [] }, ok tt)
    | none ↦
        if eqb (length b.items) b.capacity
        then (b, err (backpressure item))
        else (record b { items = b.items ++ item ∷ [] }, ok tt)
  ]
