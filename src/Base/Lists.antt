-- ===== src/Base/Lists.antt =====
-- Lists measured by native numbers, and the vector operations that the crates use.
use Prim.Native.Nat.{ℕ, zero, suc, ◌+◌}
use mathlib.Core.Path.{◌≡◌, refl, ap}
use mathlib.Core.Bool.{Bool, true, false, ◌&&◌}
use mathlib.Core.List.{List, [], ◌∷◌, ◌++◌, map, reverse_aux, Memᴰ}
use mathlib.Core.List.Memᴰ
use mathlib.Core.Logic.{◌⊎◌, inl, inr, ◌↔◌, ⊎_elim}
use mathlib.Core.Option.{Option, none, some}
use native.Mathlib.Omega.{arith}
use graph_core.Base.Tests.{if◌then◌else◌}

module _ {ℓ} {A : Type ℓ} where
  abbrev pub length : List A → ℕ
  length [] = 0
  length (x ∷ xs) = suc (length xs)

  abbrev pub is_empty : List A → Bool
  is_empty [] = true
  is_empty (x ∷ xs) = false

  unfoldable pub filter : (A → Bool) → List A → List A
  filter p [] = []
  filter p (x ∷ xs) = let rest = filter p xs in if p x then x ∷ rest else rest

  unfoldable pub all : (A → Bool) → List A → Bool
  all p [] = true
  all p (x ∷ xs) = p x && all p xs

  abbrev pub to_list : Option A → List A
  to_list none = []
  to_list (some a) = a ∷ []

  abbrev pub drop : ℕ → List A → List A
  drop zero xs = xs
  drop (suc n) [] = []
  drop (suc n) (x ∷ xs) = drop n xs

  -- `Vec::pop` without its result.
  unfoldable pub drop_last : List A → List A
  drop_last [] = []
  drop_last (x ∷ []) = []
  drop_last (x ∷ y ∷ xs) = x ∷ drop_last (y ∷ xs)

  -- `slice::last`.
  unfoldable pub last : List A → Option A
  last [] = none
  last (x ∷ []) = some x
  last (x ∷ y ∷ xs) = last (y ∷ xs)

  pub length-append : (xs ys : List A) → length (xs ++ ys) ≡ length xs + length ys
  length-append [] ys = omega arith
  length-append (x ∷ xs) ys = omega (arith, length-append xs ys)

  pub drop_none : (k : ℕ) (xs : List A) → k ≡ 0 → drop k xs ≡ xs
  drop_none zero xs h = refl
  drop_none (suc k) xs h = absurd (omega arith)

  pub drop_last-concat : (xs : List A) (a : A) → drop_last (xs ++ a ∷ []) ≡ xs
  unfolding drop_last
  drop_last-concat [] a = refl
  drop_last-concat (x ∷ []) a = refl
  drop_last-concat (x ∷ y ∷ xs) a = ap (◌∷◌ x) (drop_last-concat (y ∷ xs) a)

  pub last-concat : (xs : List A) (a : A) → last (xs ++ a ∷ []) ≡ some a
  unfolding last
  last-concat [] a = refl
  last-concat (x ∷ []) a = refl
  last-concat (x ∷ y ∷ xs) a = last-concat (y ∷ xs) a

  pub Memᴰ-cons : (a x : A) (xs : List A) → Memᴰ a (x ∷ xs) ↔ ((a ≡ x) ⊎ Memᴰ a xs)
  Memᴰ-cons a x xs = (Memᴰ.cases_cons, ⊎_elim Memᴰ.head Memᴰ.tail)

  pub last_of_mem : (xs : List A) {a : A} → Memᴰ a xs → (b : A) × (last xs ≡ some b) × Memᴰ b xs
  unfolding last
  last_of_mem [] m = absurd (Memᴰ.not-nil m)
  last_of_mem (x ∷ []) m = (x, refl, Memᴰ.head refl)
  last_of_mem (x ∷ y ∷ xs) m =
      let (b, e, k) = last_of_mem (y ∷ xs) (Memᴰ.head refl) in (b, e, Memᴰ.tail k)

  pub Memᴰ-concat : (a x : A) (xs : List A) → Memᴰ a (xs ++ x ∷ []) ↔ (Memᴰ a xs ⊎ (a ≡ x))
  Memᴰ-concat a x xs = (
    λ m. ⊎_elim inl (λ last. inr (Memᴰ.eq_of_singleton last)) (Memᴰ.append_cases xs m),
    ⊎_elim (Memᴰ.append_left _) (λ e. Memᴰ.append_right xs (Memᴰ.head e)),
  )

  pub Memᴰ-reverse_aux :
      (a : A) (xs acc : List A) → Memᴰ a (reverse_aux xs acc) ↔ (Memᴰ a xs ⊎ Memᴰ a acc)
  Memᴰ-reverse_aux a [] acc = (inr, ⊎_elim (λ m. absurd (Memᴰ.not-nil m)) (λ m. m))
  Memᴰ-reverse_aux a (x ∷ xs) acc =
      ground (arith, Memᴰ-cons a x xs, Memᴰ-cons a x acc, Memᴰ-reverse_aux a xs (x ∷ acc))

  -- Every entry satisfies the predicate.
  abbrev pub All {κ} : (A → Type κ) → List A → Type κ
  All P [] = Unit
  All P (x ∷ xs) = P x × All P xs

  pub All-append {κ} : (P : A → Type κ) (xs ys : List A) → All P xs → All P ys → All P (xs ++ ys)
  All-append P [] ys hx hy = hy
  All-append P (x ∷ xs) ys hx hy = (hx.0, All-append P xs ys hx.1 hy)

  pub All-lookup {κ} : (P : A → Type κ) (xs : List A) → All P xs → (a : A) → Memᴰ a xs → P a
  All-lookup P [] h a m = absurd (Memᴰ.not-nil m)
  All-lookup P (x ∷ xs) h a m = elim (Memᴰ.cases_cons m) [
    | inl e ↦ rw e h.0
    | inr t ↦ All-lookup P xs h.1 a t
  ]

  pub All-tabulate {κ} : (P : A → Type κ) (xs : List A) → ((a : A) → Memᴰ a xs → P a) → All P xs
  All-tabulate P [] h = tt
  All-tabulate P (x ∷ xs) h = (h x (Memᴰ.head refl), All-tabulate P xs (λ a m. h a (Memᴰ.tail m)))

  pub all_iff :
      (p : A → Bool) (xs : List A) → (all p xs ≡ true) ↔ ((a : A) → Memᴰ a xs → p a ≡ true)
  unfolding all
  all_iff p [] = (λ _ a m. absurd (Memᴰ.not-nil m), λ _. refl)
  all_iff p (x ∷ xs) = (
    λ h a m. elim (Memᴰ.cases_cons m) [
      | inl e ↦ rw e (ground arith)
      | inr t ↦ (all_iff p xs).0 (ground arith) a t
    ],
    λ h. ground (arith, h x (Memᴰ.head refl), (all_iff p xs).1 (λ a m. h a (Memᴰ.tail m))),
  )

  pub mem-filter :
      (p : A → Bool) (a : A) (xs : List A) → Memᴰ a (filter p xs) ↔ (Memᴰ a xs × (p a ≡ true))
  unfolding filter
  mem-filter p a [] = (λ m. absurd (Memᴰ.not-nil m), λ h. h.0)
  mem-filter p a (x ∷ xs) =
      ground (arith, Memᴰ-cons a x xs, Memᴰ-cons a x (filter p xs), mem-filter p a xs)

module _ {ℓ κ} {A : Type ℓ} {B : Type κ} where
  pub length-map : (xs : List A) (f : A → B) → length (map f xs) ≡ length xs
  length-map [] f = refl
  length-map (x ∷ xs) f = ap suc (length-map xs f)
