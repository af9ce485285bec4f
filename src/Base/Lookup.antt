-- ===== src/Base/Lookup.antt =====
-- The first entry of a list with a given key, and lists in which no key comes twice.
use mathlib.Core.Path.{◌≡◌, refl, subst}
use mathlib.Core.Logic.{inl, inr}
use mathlib.Core.Bool.{false}
use mathlib.Core.Option.{Option, none, some}
use mathlib.Core.List.{List, [], ◌∷◌, ◌++◌, Memᴰ}
use mathlib.Core.List.Memᴰ
use Prim.Native.Nat.{Ordering}
use Prim.Native.Nat.Ordering.{lt, eq, gt}
use native.Mathlib.Omega.{arith}
use graph_core.Base.Tests.{if◌then◌else◌, Bool-cases}
use graph_core.Base.Lists.{All}
use graph_core.Base.Order.{Ord, ◌==◌, ==_iff, ==_refl}
use graph_core.Base.BTreeMap.{BTreeMap, get, insert, values}

module _ {ℓ κ} {A : Type ℓ} {K : Type κ} ⦃o : Ord K⦄ (key : A → K) where
  unfoldable pub find_by : K → List A → Option A
  find_by k [] = none
  find_by k (x ∷ xs) = let rest = find_by k xs in if key x == k then some x else rest

  abbrev pub HasDistinct : List A → Type ℓ
  HasDistinct [] = Unit
  HasDistinct (x ∷ xs) = (find_by (key x) xs ≡ none) × HasDistinct xs

  pub find_by-concat :
      (k : K) (xs : List A) (x : A)
      → find_by k (xs ++ x ∷ [])
        ≡ (elim (find_by k xs) [ some y ↦ some y | none ↦ if key x == k then some x else none ])
  unfolding find_by
  find_by-concat k [] x = refl
  find_by-concat k (y ∷ xs) x = ground (arith, find_by-concat k xs x)

  pub HasDistinct-concat :
      (xs : List A) (x : A)
      → HasDistinct xs
      → find_by (key x) xs ≡ none
      → HasDistinct (xs ++ x ∷ [])
  unfolding find_by
  HasDistinct-concat [] x d e = (refl, tt)
  HasDistinct-concat (y ∷ xs) x (f, d) e = (
    ground (arith, find_by-concat (key y) xs x, ==_iff (key x) (key y), ==_refl (key y)),
    HasDistinct-concat xs x d (ground arith),
  )

  pub key-find_by : (k : K) (xs : List A) (x : A) → find_by k xs ≡ some x → key x ≡ k
  unfolding find_by
  key-find_by k [] x h = cc
  key-find_by k (y ∷ xs) x h = ground (arith, ==_iff (key y) k, key-find_by k xs x)

  pub All-find_by {μ} :
      (P : A → Type μ) (k : K) (xs : List A) (x : A) → All P xs → find_by k xs ≡ some x → P x
  unfolding find_by
  All-find_by P k [] x h e = absurd (cc)
  All-find_by P k (y ∷ xs) x (p, h) e = elim (Bool-cases (key y == k)) [
    | inl q ↦ let same : y ≡ x = ground arith in subst P same p
    | inr q ↦ All-find_by P k xs x h (ground arith)
  ]

-- A new entry of a map, under any key function for which it is new too.
module _ {ℓ κ μ} {A : Type ℓ} {J : Type κ} {K : Type μ} ⦃p : Ord J⦄ ⦃o : Ord K⦄ (index : A → J)
    (k : K) (v : A) where
  pub find_by-values-insert :
      (m : BTreeMap K A)
      → get k m ≡ none
      → find_by index (index v) (values m) ≡ none
      → (j : J)
      → find_by index j (values (insert k v m))
        ≡ (if index v == j then some v else find_by index j (values m))
  unfolding find_by get insert
  find_by-values-insert [] e f j = refl
  find_by-values-insert ((i, w) ∷ m) e f j = ground (
    arith,
    o.eq_of_cmp k i,
    ==_refl i,
    ==_iff (index v) j,
    ==_iff (index w) j,
    ==_iff (index w) (index v),
    find_by-values-insert m (ground arith) (ground arith) j,
  )

  pub HasDistinct-values-insert :
      (m : BTreeMap K A)
      → get k m ≡ none
      → find_by index (index v) (values m) ≡ none
      → HasDistinct index (values m)
      → HasDistinct index (values (insert k v m))
  unfolding find_by get insert
  HasDistinct-values-insert [] e f d = (refl, tt)
  HasDistinct-values-insert ((i, w) ∷ m) e f (g, d) =
      by_cmp (o.cmp k i) refl (find_by-values-insert m (ground arith) (ground arith) (index w))
        (HasDistinct-values-insert m (ground arith) (ground arith) d)
    where
      by_cmp :
          (c : Ordering)
          → o.cmp k i ≡ c
          → find_by index (index w) (values (insert k v m))
            ≡ (if index v == index w then some v else find_by index (index w) (values m))
          → HasDistinct index (values (insert k v m))
          → HasDistinct index (values (insert k v ((i, w) ∷ m)))
      by_cmp lt q later rest = rw (q, insert) (f, (g, d))
      by_cmp eq q later rest = absurd (ground (arith, o.eq_of_cmp k i, ==_refl i))
      by_cmp gt q later rest =
          rw (q, insert) (ground (arith, ==_iff (index v) (index w), ==_refl (index w)), rest)

module _ {ℓ κ} {A : Type ℓ} {K : Type κ} ⦃o : Ord K⦄ (key : A → K) where
  unfound-mem :
      (k : K) (xs : List A) (x : A) → find_by key k xs ≡ none → Memᴰ x xs → (key x == k) ≡ false
  unfolding find_by
  unfound-mem k [] x e m = absurd (Memᴰ.not-nil m)
  unfound-mem k (y ∷ xs) x e m = elim (Memᴰ.cases_cons m) [
    | inl p ↦ rw p (ground arith)
    | inr t ↦ unfound-mem k xs x (ground arith) t
  ]

  pub find_by-mem :
      (xs : List A) (x : A) → HasDistinct key xs → Memᴰ x xs → find_by key (key x) xs ≡ some x
  unfolding find_by
  find_by-mem [] x d m = absurd (Memᴰ.not-nil m)
  find_by-mem (y ∷ xs) x (f, d) m = elim (Memᴰ.cases_cons m) [
    | inl p ↦ rw p (ground (arith, ==_refl (key y)))
    | inr t ↦ ground (
      arith,
      unfound-mem (key y) xs x f t,
      ==_iff (key y) (key x),
      ==_refl (key x),
      find_by-mem xs x d t,
    )
  ]
