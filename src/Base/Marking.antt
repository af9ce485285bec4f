-- ===== src/Base/Marking.antt =====
-- Marks that a search puts on nodes: how many nodes have none, and what it means that a search only
-- adds marks.
use Prim.Native.Nat.{ℕ, suc, ◌+◌, ◌≤◌}
use mathlib.Core.Path.{◌≡◌, refl}
use mathlib.Core.Logic.{inl, inr}
use mathlib.Core.List.{List, [], ◌∷◌, Memᴰ}
use mathlib.Core.Option.{none, some}
use native.Mathlib.Omega.{arith}
use graph_core.Base.Tests.{if◌then◌else◌, is_some, Option-cases}
use graph_core.Base.Lists.{length}
use graph_core.Base.Order.{Ord, ==_iff}
use graph_core.Base.BTreeMap.{BTreeMap, get, insert, get-insert}
use mathlib.Core.List.Memᴰ

module _ {ℓ κ} {K : Type ℓ} {V : Type κ} ⦃o : Ord K⦄ where
  -- The nodes that a search has not met.
  abbrev pub unmarked : List K → BTreeMap K V → ℕ
  unmarked [] m = 0
  unmarked (v ∷ vs) m = (if is_some (get v m) then 0 else 1) + unmarked vs m

  -- No mark is lost or changed.
  abbrev pub Extends : BTreeMap K V → BTreeMap K V → Type (ℓ ⊔ κ)
  Extends m m' = (v : K) (x : V) → get v m ≡ some x → get v m' ≡ some x

  pub unmarked-Extends :
      (vs : List K) (m m' : BTreeMap K V) → Extends m m' → unmarked vs m' ≤ unmarked vs m
  unmarked-Extends [] m m' h = omega arith
  unmarked-Extends (v ∷ vs) m m' h = elim (Option-cases (get v m)) [
    | inl e ↦ ground (arith, e, unmarked-Extends vs m m' h)
    | inr (x, e) ↦ ground (arith, e, h v x e, unmarked-Extends vs m m' h)
  ]

  pub Extends-insert :
      (m : BTreeMap K V) (id : K) (x : V) → get id m ≡ none → Extends m (insert id x m)
  Extends-insert m id x fresh v y h = ground (arith, get-insert v id x m, ==_iff id v)

  pub unmarked-insert :
      (vs : List K) (m : BTreeMap K V) (id : K) (x : V)
      → get id m ≡ none
      → Memᴰ id vs
      → suc (unmarked vs (insert id x m)) ≤ unmarked vs m
  unmarked-insert [] m id x fresh mem = absurd (Memᴰ.not-nil mem)
  unmarked-insert (v ∷ vs) m id x fresh mem =
      let less = unmarked-Extends vs m (insert id x m) (Extends-insert m id x fresh) in
      elim (Memᴰ.cases_cons mem) [
        | inl e ↦ ground (arith, e, get-insert v id x m, ==_iff id v, less)
        | inr r ↦
            ground (arith, get-insert v id x m, ==_iff id v, unmarked-insert vs m id x fresh r)
      ]

  pub Extends-trans : (a b c : BTreeMap K V) → Extends a b → Extends b c → Extends a c
  Extends-trans a b c f g v x h = g v x (f v x h)

  -- Entering and leaving a node keeps the marks that stood before it was entered.
  pub Extends-leave :
      (m m' : BTreeMap K V) (id : K) (active complete : V)
      → get id m ≡ none
      → Extends (insert id active m) m'
      → Extends m (insert id complete m')
  Extends-leave m m' id active complete fresh h v x e =
      ground (arith, get-insert v id active m, get-insert v id complete m', ==_iff id v, h v x)

pub unmarked-nil {ℓ κ} :
    {K : Type ℓ} ⦃o : Ord K⦄ (V : Type κ) (vs : List K) → unmarked {V = V} vs [] ≡ length vs
unfolding get
unmarked-nil V [] = refl
unmarked-nil V (v ∷ vs) = omega (arith, unmarked-nil V vs)
