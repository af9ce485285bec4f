-- ===== src/Stream/Buffers.antt =====
-- The three bounded policies. A `VecDeque` is a list with its front first.
pub mod Trace
pub mod Lossless
pub mod Lossy
pub mod Coalescing
use graph_core.Base.{◌≡◌, refl, ◌⊎◌, inl, inr, List, [], ◌∷◌, Option, none, some}

pub data BufferError : Type 0 where
  zero_capacity : BufferError

-- `PushError::Backpressure` gives the item back.
pub data PushError {ℓ} (A : Type ℓ) : Type ℓ where
  backpressure : A → PushError A

-- `VecDeque::pop_front`.
unfoldable pub pop_front {ℓ} : {A : Type ℓ} → List A → Option A × List A
pop_front [] = (none, [])
pop_front (x ∷ xs) = (some x, xs)

pub pop_front_cases {ℓ} :
    {A : Type ℓ} (l : List A)
    → ((l ≡ []) × (pop_front l ≡ (none, [])))
      ⊎ ((x : A) × (xs : List A) × (l ≡ x ∷ xs) × (pop_front l ≡ (some x, xs)))
unfolding pop_front
pop_front_cases [] = inl (refl, refl)
pop_front_cases (x ∷ xs) = inr (x, xs, refl, refl)
