-- ===== src/Base/Walks.antt =====
-- Edges of a directed graph, given by the successors of each node; chains of edges, cycles, and nodes
-- from which every descent ends.
use mathlib.Core.Path.{◌≡◌, subst}
use mathlib.Core.Logic.{inl, inr}
use mathlib.Core.List.{List, [], ◌∷◌, ◌++◌, Memᴰ}
use mathlib.Core.Option.{Option, none, some}
use native.Mathlib.Omega.{arith}
use graph_core.Base.Tests.{if◌then◌else◌, Bool-cases}
use graph_core.Base.Order.{Ord, ◌==◌, ==_iff}
use mathlib.Core.WellFounded.{Acc}
use mathlib.Core.List.Memᴰ

-- `slice::position` with the slice from there: from the first occurrence on.
unfoldable pub from_position {ℓ} : {K : Type ℓ} ⦃o : Ord K⦄ → K → List K → Option (List K)
from_position d [] = none
from_position d (x ∷ xs) = if x == d then some (x ∷ xs) else from_position d xs

module _ {ℓ} {K : Type ℓ} (next : K → List K) where
  abbrev pub Edge : K → K → Type ℓ
  Edge v d = Memᴰ d (next v)

  -- Each entry depends on the next.
  abbrev pub Chain : List K → Type ℓ
  Chain [] = Unit
  Chain (x ∷ []) = Unit
  Chain (x ∷ y ∷ r) = Edge x y × Chain (y ∷ r)

  -- A chain of edges that ends where it begins.
  abbrev pub IsCycle : List K → Type ℓ
  IsCycle path = (d : K) × (mid : List K) × (path ≡ d ∷ mid ++ d ∷ []) × Chain (d ∷ mid ++ d ∷ [])

  -- Every descent along prerequisites from the task ends.
  abbrev pub IsGrounded : K → Type ℓ
  IsGrounded = Acc (λ d v. Edge v d)

  abbrev pub IsAcyclic : Type ℓ
  IsAcyclic = (v : K) → IsGrounded v

  pub Chain-tail : (x : K) (r : List K) → Chain (x ∷ r) → Chain r
  Chain-tail x [] c = tt
  Chain-tail x (y ∷ r) c = c.1

  pub Chain-concat :
      (s : List K) (v d : K) → Chain (s ++ v ∷ []) → Edge v d → Chain ((s ++ v ∷ []) ++ d ∷ [])
  Chain-concat [] v d c e = (e, tt)
  Chain-concat (x ∷ []) v d c e = (c.0, (e, tt))
  Chain-concat (x ∷ y ∷ s) v d c e = (c.0, Chain-concat (y ∷ s) v d c.1 e)

  -- No cycle passes through a grounded task.
  pub not-IsCycle_of_IsGrounded :
      {v : K} → IsGrounded v → (mid : List K) → Chain (v ∷ mid ++ v ∷ []) → ⊥
  not-IsCycle_of_IsGrounded {v} (Acc.intro _ smaller) [] c =
      not-IsCycle_of_IsGrounded (smaller v c.0) [] c
  not-IsCycle_of_IsGrounded {v} (Acc.intro _ smaller) (y ∷ mid) c =
      not-IsCycle_of_IsGrounded (smaller y c.0) (mid ++ v ∷ []) (Chain-concat (y ∷ mid) v y c.1 c.0)

  -- An acyclic topology has no cycle.
  pub not-IsCycle : IsAcyclic → (path : List K) → ¬ IsCycle path
  not-IsCycle a path (d, mid, _, c) = not-IsCycle_of_IsGrounded (a d) mid c

module _ {ℓ} {K : Type ℓ} ⦃o : Ord K⦄ (next : K → List K) where
  -- A stack that leads to `d` and holds it closes a cycle from its first occurrence on.
  pub from_position-Chain :
      (d : K) (s : List K)
      → Memᴰ d s
      → Chain next (s ++ d ∷ [])
      → (mid : List K) × (from_position d s ≡ some (d ∷ mid)) × Chain next (d ∷ mid ++ d ∷ [])
  unfolding from_position
  from_position-Chain d [] m c = absurd (Memᴰ.not-nil m)
  from_position-Chain d (x ∷ s) m c = elim (Bool-cases (x == d)) [
    | inl h ↦
        let e = (==_iff x d).0 h in
        (s, ground (arith, h, e), subst (λ z. Chain next (z ∷ s ++ d ∷ [])) e c)
    | inr h ↦ elim (Memᴰ.cases_cons m) [
      | inl e ↦ absurd (ground (arith, ==_iff x d))
      | inr r ↦
          let (mid, p, k) = from_position-Chain d s r (Chain-tail next x (s ++ d ∷ []) c) in
          (mid, rw (h, from_position) p, k)
    ]
  ]
