-- ===== src/Base/Sorted.antt =====
-- Maps with their keys in ascending order: such a map is what its lookups are.
use Prim.Native.Nat.{Ordering}
use Prim.Native.Nat.Ordering.{lt, eq, gt}
use mathlib.Core.Path.{◌≡◌, refl, sym, subst}
use mathlib.Core.Option.{none}
use mathlib.Core.List.{[], ◌∷◌}
use native.Mathlib.Omega.{arith}
use graph_core.Base.Order.{Ord, ==_iff, ==_refl}
use graph_core.Base.BTreeMap.{BTreeMap, get, insert}

module _ {ℓ κ} {K : Type ℓ} {V : Type κ} ⦃o : Ord K⦄ where
  abbrev pub Below : K → BTreeMap K V → Type 0
  Below k [] = Unit
  Below k (e ∷ m) = (o.cmp k e.0 ≡ lt) × Below k m

  abbrev pub IsSorted : BTreeMap K V → Type 0
  IsSorted [] = Unit
  IsSorted (e ∷ m) = Below e.0 m × IsSorted m

  Below-trans : (i k : K) (m : BTreeMap K V) → o.cmp i k ≡ lt → Below k m → Below i m
  Below-trans i k [] h b = tt
  Below-trans i k (e ∷ m) h (p, b) = (o.lt_trans i k e.0 h p, Below-trans i k m h b)

  Below-insert :
      (i k : K) (v : V) (m : BTreeMap K V) → Below i m → o.cmp i k ≡ lt → Below i (insert k v m)
  unfolding insert
  Below-insert i k v [] b h = (h, tt)
  Below-insert i k v ((j, w) ∷ m) (p, b) h = by_cmp (o.cmp k j) refl (Below-insert i k v m b h)
    where
      by_cmp :
          (c : Ordering)
          → o.cmp k j ≡ c
          → Below i (insert k v m)
          → Below i (insert k v ((j, w) ∷ m))
      by_cmp lt q rest = rw (q, insert) (h, (p, b))
      by_cmp eq q rest = rw (q, insert) (h, b)
      by_cmp gt q rest = rw (q, insert) (p, rest)

  pub insert-IsSorted : (k : K) (v : V) (m : BTreeMap K V) → IsSorted m → IsSorted (insert k v m)
  unfolding insert
  insert-IsSorted k v [] s = (tt, tt)
  insert-IsSorted k v ((i, w) ∷ m) (b, s) = by_cmp (o.cmp k i) refl (insert-IsSorted k v m s)
    where
      by_cmp :
          (c : Ordering)
          → o.cmp k i ≡ c
          → IsSorted (insert k v m)
          → IsSorted (insert k v ((i, w) ∷ m))
      by_cmp lt q rest = rw (q, insert) ((q, Below-trans k i m q b), (b, s))
      by_cmp eq q rest = rw (q, insert) (subst (λ z. Below z m) (sym (o.eq_of_cmp k i q)) b, s)
      by_cmp gt q rest = rw (q, insert) (Below-insert i k v m b (o.lt_of_gt k i q), rest)

  get-Below : (k : K) (m : BTreeMap K V) → Below k m → get k m ≡ none
  unfolding get
  get-Below k [] b = refl
  get-Below k ((i, w) ∷ m) (p, b) = ground (arith, ==_iff i k, o.cmp_refl k, get-Below k m b)

  first_of_equal :
      (i j : K) (v w : V) (m n : BTreeMap K V)
      → Below i m
      → Below j n
      → ((k : K) → get k ((i, v) ∷ m) ≡ get k ((j, w) ∷ n))
      → (i ≡ j) × (v ≡ w)
  unfolding get
  first_of_equal i j v w m n b c h = by_cmp (o.cmp i j) refl
    where
      by_cmp : (x : Ordering) → o.cmp i j ≡ x → (i ≡ j) × (v ≡ w)
      by_cmp eq q =
          let same = o.eq_of_cmp i j q in (same, ground (arith, h i, ==_refl i, ==_iff j i, same))
      by_cmp lt q = absurd (
          ground (
            arith,
            h i,
            ==_refl i,
            ==_iff j i,
            o.cmp_refl i,
            get-Below i n (Below-trans i j n q c),
          ))
      by_cmp gt q = absurd (
          ground (
            arith,
            h j,
            ==_refl j,
            ==_iff i j,
            o.cmp_refl j,
            get-Below j m (Below-trans j i m (o.lt_of_gt i j q) b),
          ))

  pub eq_of_get :
      (m n : BTreeMap K V) → IsSorted m → IsSorted n → ((k : K) → get k m ≡ get k n) → m ≡ n
  unfolding get
  eq_of_get [] [] s t h = refl
  eq_of_get [] ((j, w) ∷ n) s t h = absurd (ground (arith, h j, ==_refl j))
  eq_of_get ((i, v) ∷ m) [] s t h = absurd (ground (arith, h i, ==_refl i))
  eq_of_get ((i, v) ∷ m) ((j, w) ∷ n) (b, s) (c, t) h =
      let (p, q) = first_of_equal i j v w m n b c h in
      let rest =
        eq_of_get m n s t
          (λ k. ground (arith, h k, p, q, get-Below i m b, get-Below j n c, ==_iff i k)) in
      λ x. (p x, q x) ∷ rest x
