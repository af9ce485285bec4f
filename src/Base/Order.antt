-- ===== src/Base/Order.antt =====
-- The bound `K: Ord` with the laws that the trait asks of `cmp`, the equality test that goes with
-- it, and lexicographic order: that of vectors, and so of the UTF-8 text of identifiers.
use mathlib.Core.Path.{◌≡◌, refl}
use mathlib.Core.Logic.{◌↔◌}
use mathlib.Core.Bool.{Bool, true, false}
use mathlib.Core.List.{List, [], ◌∷◌}
use native.Mathlib.Omega.{arith}
use Prim.Native.Nat.Ordering.{lt, eq, gt}
use Prim.Native.Nat.{ℕ, compare, Ordering}

pub record Ord {ℓ} (K : Type ℓ) : Type ℓ where
  pub cmp : K → K → Ordering
  pub eq_of_cmp : (j k : K) → cmp j k ≡ eq → j ≡ k
  pub cmp_refl : (k : K) → cmp k k ≡ eq
  pub lt_trans : (i j k : K) → cmp i j ≡ lt → cmp j k ≡ lt → cmp i k ≡ lt
  pub gt_of_lt : (j k : K) → cmp j k ≡ lt → cmp k j ≡ gt
  pub lt_of_gt : (j k : K) → cmp j k ≡ gt → cmp k j ≡ lt

infix 50 ◌==◌
abbrev pub ◌==◌ {ℓ} : {K : Type ℓ} ⦃o : Ord K⦄ → K → K → Bool
◌==◌ ⦃o⦄ a b = elim (o.cmp a b) [ eq ↦ true | _ ↦ false ]

module _ {ℓ} {K : Type ℓ} ⦃o : Ord K⦄ where
  pub ==_iff : (a b : K) → ((a == b) ≡ true) ↔ (a ≡ b)
  ==_iff a b = (λ h. ground (arith, o.eq_of_cmp a b), λ h. ground (arith, o.cmp_refl a))

  pub ==_refl : (a : K) → (a == a) ≡ true
  ==_refl a = ground (arith, o.cmp_refl a)

pub eq_of_compare : (j k : ℕ) → compare j k ≡ eq → j ≡ k
eq_of_compare = ground arith

pub compare_refl : (k : ℕ) → compare k k ≡ eq
compare_refl = ground arith

pub compare_trans : (i j k : ℕ) → compare i j ≡ lt → compare j k ≡ lt → compare i k ≡ lt
compare_trans = ground arith

pub compare-gt_of_lt : (j k : ℕ) → compare j k ≡ lt → compare k j ≡ gt
compare-gt_of_lt = ground arith

pub compare-lt_of_gt : (j k : ℕ) → compare j k ≡ gt → compare k j ≡ lt
compare-lt_of_gt = ground arith

instance unfoldable pub nat_ord : Ord ℕ
nat_ord = record {
  cmp = compare;
  eq_of_cmp = eq_of_compare;
  cmp_refl = compare_refl;
  lt_trans = compare_trans;
  gt_of_lt = compare-gt_of_lt;
  lt_of_gt = compare-lt_of_gt;
}

-- The order of a wrapper is the order of what it wraps.
unfoldable pub ord_by {ℓ κ} :
    {K : Type ℓ} {L : Type κ} ⦃o : Ord L⦄ (f : K → L) → ((a b : K) → f a ≡ f b → a ≡ b) → Ord K
ord_by ⦃o⦄ f inj = record {
  cmp = λ a b. o.cmp (f a) (f b);
  eq_of_cmp = λ a b h. inj a b (o.eq_of_cmp (f a) (f b) h);
  cmp_refl = λ a. o.cmp_refl (f a);
  lt_trans = λ a b c. o.lt_trans (f a) (f b) (f c);
  gt_of_lt = λ a b. o.gt_of_lt (f a) (f b);
  lt_of_gt = λ a b. o.lt_of_gt (f a) (f b);
}

-- `Ordering::then`.
abbrev pub and_then : Ordering → Ordering → Ordering
and_then lt rest = lt
and_then eq rest = rest
and_then gt rest = gt

module _ {ℓ} {K : Type ℓ} ⦃o : Ord K⦄ where
  -- A proper prefix comes first.
  unfoldable pub lex : List K → List K → Ordering
  lex [] [] = eq
  lex [] (y ∷ ys) = lt
  lex (x ∷ xs) [] = gt
  lex (x ∷ xs) (y ∷ ys) = and_then (o.cmp x y) (lex xs ys)

  pub lex_refl : (xs : List K) → lex xs xs ≡ eq
  unfolding lex
  lex_refl [] = refl
  lex_refl (x ∷ xs) = rw (o.cmp_refl x) (lex_refl xs)

  pub eq_of_lex : (xs ys : List K) → lex xs ys ≡ eq → xs ≡ ys
  unfolding lex
  eq_of_lex [] [] h = refl
  eq_of_lex [] (y ∷ ys) h = cc
  eq_of_lex (x ∷ xs) [] h = cc
  eq_of_lex (x ∷ xs) (y ∷ ys) h = ground (arith, o.eq_of_cmp x y, eq_of_lex xs ys)

  pub lex-lt_of_gt : (xs ys : List K) → lex xs ys ≡ gt → lex ys xs ≡ lt
  unfolding lex
  lex-lt_of_gt [] [] h = cc
  lex-lt_of_gt [] (y ∷ ys) h = cc
  lex-lt_of_gt (x ∷ xs) [] h = refl
  lex-lt_of_gt (x ∷ xs) (y ∷ ys) h =
      ground (arith, o.eq_of_cmp x y, o.lt_of_gt x y, o.cmp_refl x, lex-lt_of_gt xs ys)

  pub lex-gt_of_lt : (xs ys : List K) → lex xs ys ≡ lt → lex ys xs ≡ gt
  unfolding lex
  lex-gt_of_lt [] [] h = cc
  lex-gt_of_lt [] (y ∷ ys) h = refl
  lex-gt_of_lt (x ∷ xs) [] h = cc
  lex-gt_of_lt (x ∷ xs) (y ∷ ys) h =
      ground (arith, o.eq_of_cmp x y, o.gt_of_lt x y, o.cmp_refl x, lex-gt_of_lt xs ys)

  pub lex_trans : (xs ys zs : List K) → lex xs ys ≡ lt → lex ys zs ≡ lt → lex xs zs ≡ lt
  unfolding lex
  lex_trans [] [] zs h k = cc
  lex_trans [] (y ∷ ys) [] h k = cc
  lex_trans [] (y ∷ ys) (z ∷ zs) h k = refl
  lex_trans (x ∷ xs) [] zs h k = cc
  lex_trans (x ∷ xs) (y ∷ ys) [] h k = cc
  lex_trans (x ∷ xs) (y ∷ ys) (z ∷ zs) h k =
      ground (
        arith,
        o.eq_of_cmp x y,
        o.eq_of_cmp y z,
        o.cmp_refl y,
        o.lt_trans x y z,
        lex_trans xs ys zs,
      )

  instance unfoldable pub list_ord : Ord (List K)
  list_ord = record {
    cmp = lex;
    eq_of_cmp = eq_of_lex;
    cmp_refl = lex_refl;
    lt_trans = lex_trans;
    gt_of_lt = lex-gt_of_lt;
    lt_of_gt = lex-lt_of_gt;
  }
