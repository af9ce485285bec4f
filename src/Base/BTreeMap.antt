-- ===== src/Base/BTreeMap.antt =====
-- `BTreeMap` and `BTreeSet` of Rust's standard library: the entries in ascending key order.
use Prim.Native.Nat.Ordering.{lt, eq, gt}
use mathlib.Core.Path.{◌≡◌, refl}
use mathlib.Core.Logic.{◌↔◌, ◌⊎◌}
use mathlib.Core.Bool.{Bool, true}
use mathlib.Core.List.{List, [], ◌∷◌, map, Memᴰ}
use mathlib.Core.List.Memᴰ
use mathlib.Core.Option.{Option, none, some}
use native.Mathlib.Omega.{arith}
use graph_core.Base.Tests.{if◌then◌else◌, is_some}
use graph_core.Base.Lists.{Memᴰ-cons}
use graph_core.Base.Order.{Ord, ◌==◌, ==_iff}

abbrev pub BTreeMap {ℓ κ} : Type ℓ → Type κ → Type (ℓ ⊔ κ)
BTreeMap K V = List (K × V)

abbrev pub BTreeSet {ℓ} : Type ℓ → Type ℓ
BTreeSet K = BTreeMap K (Unit {0})

module _ {ℓ κ} {K : Type ℓ} {V : Type κ} where
  abbrev pub keys : BTreeMap K V → List K
  keys = map (λ e. e.0)

  abbrev pub values : BTreeMap K V → List V
  values = map (λ e. e.1)

module _ {ℓ κ} {K : Type ℓ} {V : Type κ} ⦃o : Ord K⦄ where
  unfoldable pub get : K → BTreeMap K V → Option V
  get k [] = none
  get k ((j, v) ∷ m) = if j == k then some v else get k m

  -- A present key keeps its place and takes the new value.
  unfoldable pub insert : K → V → BTreeMap K V → BTreeMap K V
  insert k v [] = (k, v) ∷ []
  insert k v ((j, w) ∷ m) = elim (o.cmp k j) [
    | lt ↦ (k, v) ∷ (j, w) ∷ m
    | eq ↦ (k, v) ∷ m
    | gt ↦ (j, w) ∷ insert k v m
  ]

  unfoldable pub remove : K → BTreeMap K V → BTreeMap K V
  remove k [] = []
  remove k ((j, w) ∷ m) = let rest = remove k m in if j == k then rest else (j, w) ∷ rest

  abbrev pub contains_key : K → BTreeMap K V → Bool
  contains_key k m = is_some (get k m)

  pub get-insert :
      (j k : K) (v : V) (m : BTreeMap K V)
      → get j (insert k v m) ≡ (if k == j then some v else get j m)
  unfolding get insert
  get-insert j k v [] = refl
  get-insert j k v ((i, w) ∷ m) =
      ground (arith, o.eq_of_cmp k i, ==_iff k j, ==_iff i j, get-insert j k v m)

  pub get-remove :
      (j k : K) (m : BTreeMap K V) → get j (remove k m) ≡ (if k == j then none else get j m)
  unfolding get remove
  get-remove j k [] = ground arith
  get-remove j k ((i, w) ∷ m) = ground (arith, ==_iff i k, ==_iff k j, ==_iff i j, get-remove j k m)

  pub mem_keys-insert :
      (j k : K) (v : V) (m : BTreeMap K V)
      → Memᴰ j (keys (insert k v m)) ↔ ((j ≡ k) ⊎ Memᴰ j (keys m))
  unfolding insert
  mem_keys-insert j k v [] = Memᴰ-cons j k []
  mem_keys-insert j k v ((i, w) ∷ m) = ground (
    arith,
    o.eq_of_cmp k i,
    Memᴰ-cons j k (i ∷ keys m),
    Memᴰ-cons j k (keys m),
    Memᴰ-cons j i (keys m),
    Memᴰ-cons j i (keys (insert k v m)),
    mem_keys-insert j k v m,
  )

  -- A key is found exactly when it is among the keys.
  pub contains_key_iff : (k : K) (m : BTreeMap K V) → (contains_key k m ≡ true) ↔ Memᴰ k (keys m)
  unfolding get
  contains_key_iff k [] = (λ h. cc, λ m. absurd (Memᴰ.not-nil m))
  contains_key_iff k ((i, w) ∷ m) =
      ground (arith, ==_iff i k, Memᴰ-cons k i (keys m), contains_key_iff k m)
