-- ===== src/Capability/Resolver/Acceptance.antt =====
-- When `resolve` succeeds, and the order in which capabilities are torn down.
use graph_core.Base.{
  ◌≡◌, subst, ◌⊎◌, inl, inr, ◌↔◌, List, [], ◌∷◌, ◌++◌, true, false, Memᴰ, arith, All, All-lookup,
  All-append, Memᴰ-concat, Memᴰ-reverse_aux, Bool-cases, append_assoc,
}
use graph_core.Base.Results.{ok, err}
use graph_core.Base.BTreeMap.{contains_key}
use graph_core.Base.Walks.{Edge, IsGrounded, IsAcyclic, not-IsCycle}
use graph_core.Core.Ident.{Ident, ident_ord}
use graph_core.Capability.Resolver.{
  CapabilityGraphError, unknown_capability, missing_dependency, cycle, CapabilityGraph,
  requirements, ResolvedCapabilityGraph, teardown_order, resolve,
}
use graph_core.Capability.Resolver.Construction.{Constructs}
use graph_core.Capability.Resolver.Invariant.{Fault}
use graph_core.Capability.Resolver.Outcome.{Resolves, resolve_decides, resolve-Resolves}
use mathlib.Core.WellFounded.{Acc}
use mathlib.Core.List.{reverse_aux}
use mathlib.Core.List.Memᴰ

module _ (next : Ident → List Ident) where
  Constructs-IsGrounded :
      (built order : List Ident)
      → All (IsGrounded next) built
      → Constructs next built order
      → All (IsGrounded next) order
  Constructs-IsGrounded built [] h c = tt
  Constructs-IsGrounded built (v ∷ order) h (_, deps, c) =
      let here : IsGrounded next v = Acc.intro v (λ d edge.
        All-lookup (IsGrounded next) built h d
          (All-lookup (λ d. Memᴰ d built) (next v) deps d edge)) in
      (
        here,
        Constructs-IsGrounded (built ++ v ∷ []) order
            (All-append (IsGrounded next) built (v ∷ []) h (here, tt)) c,
      )

  -- Each capability of the list goes once, and when nothing that requires it is left.
  abbrev pub Dismantles : List Ident → Type 0
  Dismantles [] = Unit
  Dismantles (v ∷ rest) =
      ¬ Memᴰ v rest × ((u : Ident) → Memᴰ u rest → ¬ Edge next u v) × Dismantles rest

  -- `torn` is what `built` is, in another order.
  Constructs-Dismantles :
      (built torn order : List Ident)
      → ((u : Ident) → Memᴰ u torn → Memᴰ u built)
      → ((u d : Ident) → Memᴰ u built → Edge next u d → Memᴰ d built)
      → Constructs next built order
      → Dismantles torn
      → Dismantles (reverse_aux order torn)
  Constructs-Dismantles built torn [] sub up c t = t
  Constructs-Dismantles built torn (v ∷ order) sub up (fresh, deps, c) t =
      Constructs-Dismantles (built ++ v ∷ []) (v ∷ torn) order
        (λ u m. elim (Memᴰ.cases_cons m) [
          | inl e ↦ Memᴰ.append_right built (Memᴰ.head e)
          | inr m' ↦ Memᴰ.append_left _ (sub u m')
        ])
        (λ u d m edge. Memᴰ.append_left _ (elim ((Memᴰ-concat u v built).0 m) [
          | inl before ↦ up u d before edge
          | inr same ↦
              All-lookup (λ d. Memᴰ d built) (next v) deps d
                (subst (λ x. Memᴰ d (next x)) same edge)
        ]))
        c ((λ m. fresh (sub v m)), (λ u m edge. fresh (up u v (sub u m) edge)), t)

-- Every requirement is registered.
abbrev pub IsClosed : CapabilityGraph → Type 0
IsClosed g = (c d : Ident) → Edge (requirements g) c d → contains_key d g.definitions ≡ true

unregistered-IsGrounded :
    (g : CapabilityGraph) (v : Ident)
    → contains_key v g.definitions ≡ false
    → IsGrounded (requirements g) v
unfolding requirements
unregistered-IsGrounded g v h =
    Acc.intro v (λ d edge. absurd (Memᴰ.not-nil (subst (Memᴰ d) (no_requirements) edge)))
  where
    no_requirements : requirements g v ≡ []
    no_requirements = ground arith

Resolves-IsAcyclic :
    (g : CapabilityGraph) (r : ResolvedCapabilityGraph) → Resolves g r → IsAcyclic (requirements g)
Resolves-IsAcyclic g r (c, all) v = elim (Bool-cases (contains_key v g.definitions)) [
  | inl k ↦
      All-lookup (IsGrounded (requirements g)) r.construction_order
        (Constructs-IsGrounded (requirements g) [] r.construction_order tt c) v ((all v).1 k)
  | inr k ↦ unregistered-IsGrounded g v k
]

Edge-registered :
    (g : CapabilityGraph) (c d : Ident)
    → Edge (requirements g) c d
    → contains_key c g.definitions ≡ true
unfolding requirements
Edge-registered g c d edge = elim (Bool-cases (contains_key c g.definitions)) [
  | inl k ↦ k
  | inr k ↦ absurd (
      let nothing : requirements g c ≡ [] = ground arith in
      Memᴰ.not-nil (subst (Memᴰ d) nothing edge))
]

Constructs-up :
    (next : Ident → List Ident) (built order : List Ident) (c d : Ident)
    → Constructs next built order
    → Memᴰ c order
    → Edge next c d
    → Memᴰ d (built ++ order)
Constructs-up next built [] c d h m edge = absurd (Memᴰ.not-nil m)
Constructs-up next built (v ∷ order) c d (_, deps, h) m edge = elim (Memᴰ.cases_cons m) [
  | inl e ↦
      Memᴰ.append_left _
        (All-lookup (λ d. Memᴰ d built) (next v) deps d (subst (λ x. Memᴰ d (next x)) e edge))
  | inr later ↦
      subst (Memᴰ d) (append_assoc built (v ∷ []) order)
        (Constructs-up next (built ++ v ∷ []) order c d h later edge)
]

Resolves-IsClosed : (g : CapabilityGraph) (r : ResolvedCapabilityGraph) → Resolves g r → IsClosed g
Resolves-IsClosed g r (c, all) u d edge = (all d).0 (
    Constructs-up (requirements g) [] r.construction_order u d c
      ((all u).1 (Edge-registered g u d edge)) edge)

-- Resolution succeeds exactly on the graphs whose requirements are all registered and go round in no
-- cycle.
pub resolve_iff :
    (g : CapabilityGraph)
    → ((r : ResolvedCapabilityGraph) × (resolve g ≡ ok r))
      ↔ (IsClosed g × IsAcyclic (requirements g))
resolve_iff g = by_cases (resolve_decides g)
  where
    by_cases :
        ((r : ResolvedCapabilityGraph) × (resolve g ≡ ok r) × Resolves g r)
          ⊎ ((e : CapabilityGraphError) × (resolve g ≡ err e) × Fault g e)
        → ((r : ResolvedCapabilityGraph) × (resolve g ≡ ok r))
          ↔ (IsClosed g × IsAcyclic (requirements g))
    by_cases (inl (r, e, h)) =
        ((λ _. (Resolves-IsClosed g r h, Resolves-IsAcyclic g r h)), (λ _. (r, e)))
    by_cases (inr (unknown_capability id, e, h)) = absurd h
    by_cases (inr (missing_dependency c d, e, (_, edge, missing))) =
        ((λ (r, p). cc), (λ (closed, _). absurd (ground (arith, closed c d edge))))
    by_cases (inr (cycle path, e, h)) =
        ((λ (r, p). cc), (λ (_, a). absurd (not-IsCycle (requirements g) a path h)))

-- The teardown order of a resolved graph holds each registered capability once, and none stands
-- before one that requires it.
pub teardown_order-Dismantles :
    (g : CapabilityGraph) (r : ResolvedCapabilityGraph)
    → resolve g ≡ ok r
    → Dismantles (requirements g) (teardown_order r)
      × ((v : Ident) → Memᴰ v (teardown_order r) ↔ (contains_key v g.definitions ≡ true))
unfolding teardown_order
teardown_order-Dismantles g r e =
    let (c, all) = resolve-Resolves g r e in
    let order = r.construction_order in
    (
      Constructs-Dismantles (requirements g) [] [] order (λ u m. m)
          (λ u d m edge. absurd (Memᴰ.not-nil m)) c tt,
      λ v. ground (arith, all v, Memᴰ-reverse_aux v order [], λ (m : Memᴰ v []). Memᴰ.not-nil m),
    )
