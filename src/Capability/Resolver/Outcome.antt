-- ===== src/Capability/Resolver/Outcome.antt =====
-- What `resolve` returns: an order for the construction of all capabilities, or a fault of the graph.
use graph_core.Base.{
  ℕ, suc, ◌<◌, ◌≡◌, refl, ◌∙◌, ◌⊎◌, inl, inr, ◌↔◌, List, [], ◌∷◌, true, some, Memᴰ, arith,
  All-lookup, length, length-map, subst,
}
use graph_core.Base.Results.{Result, ok, err, panic, out_of_fuel, ◌>>=◌}
use graph_core.Base.BTreeMap.{keys, get, contains_key, contains_key_iff}
use graph_core.Base.Marking.{unmarked, unmarked-nil, unmarked-Extends}
use graph_core.Core.Ident.{Ident, ident_ord}
use graph_core.Capability.Definition.{CapabilityDefinition}
use graph_core.Capability.Resolver.{
  CapabilityGraphError, CapabilityGraph, requirements, VisitState, Walk, Visit, visit, visit_keys,
  start, ResolvedCapabilityGraph, resolve,
}
use graph_core.Capability.Resolver.Construction.{IsConstruction}
use graph_core.Capability.Resolver.Invariant.{Inv, Fault, Post, AllDone, Post-bind}
use graph_core.Capability.Resolver.Search.{visit-Visits}
use mathlib.Core.List.Memᴰ

module _ (g : CapabilityGraph) where
  visit_keys-Post :
      (fuel : ℕ) (ids : List Ident) (w : Walk)
      → w.active_path ≡ []
      → Inv g w
      → ((v : Ident) → Memᴰ v ids → contains_key v g.definitions ≡ true)
      → unmarked (keys g.definitions) w.states < fuel
      → Post g (AllDone g ids) w (visit_keys (visit fuel g.definitions) ids w)
  unfolding visit_keys
  visit_keys-Post fuel [] w p i k u = (refl, i, (λ v x e. e), tt)
  visit_keys-Post fuel (id ∷ ids) w p i k u =
      Post-bind g id ids w _ (visit_keys (visit fuel g.definitions) ids)
        (visit-Visits g fuel id w i (k id (Memᴰ.head refl)) (rw p tt) u)
        (λ w' e i' x.
          visit_keys-Post fuel ids w' (e ∙ p) i' (λ v m. k v (Memᴰ.tail m))
            (omega (arith, unmarked-Extends (keys g.definitions) w.states w'.states x)))

  start-Inv : Inv g start
  unfolding get
  start-Inv = record {
    finished = λ v h. cc;
    constructed = λ v m. absurd (Memᴰ.not-nil m);
    registered = λ v m. absurd (Memᴰ.not-nil m);
    on_path = λ v h. cc;
    chain = tt;
    constructs = tt;
  }

  -- The order constructs exactly the registered capabilities.
  abbrev pub Resolves : ResolvedCapabilityGraph → Type 0
  Resolves r =
      IsConstruction (requirements g) r.construction_order
      × ((v : Ident) → Memᴰ v r.construction_order ↔ (contains_key v g.definitions ≡ true))

  abbrev pub Resolution : Result CapabilityGraphError ResolvedCapabilityGraph → Type 0
  Resolution (ok r) = Resolves r
  Resolution (err e) = Fault g e
  Resolution panic = ⊥
  Resolution out_of_fuel = ⊥

  Resolution-of_Post :
      (r : Visit)
      → Post g (AllDone g (keys g.definitions)) start r
      → Resolution (r >>= λ w. ok (record { construction_order = w.construction_order }))
  Resolution-of_Post (ok w) (_, i, _, all) = (
    i.constructs,
    λ v. (
      i.registered v,
      λ k. i.finished v (
          All-lookup (λ d. get d w.states ≡ some _) (keys g.definitions) all v
            ((contains_key_iff v g.definitions).0 k)),
    ),
  )
  Resolution-of_Post (err e) h = h
  Resolution-of_Post panic h = h
  Resolution-of_Post out_of_fuel h = h

  pub resolve-Resolution : Resolution (resolve g)
  unfolding resolve
  resolve-Resolution = Resolution-of_Post _ (
      visit_keys-Post (suc (length g.definitions)) (keys g.definitions) start refl start-Inv
        (λ v m. (contains_key_iff v g.definitions).1 m)
        (omega (
          arith,
          unmarked-nil VisitState (keys g.definitions),
          length-map g.definitions (λ (e : Ident × CapabilityDefinition). e.0),
        )))

pub resolve-Resolves :
    (g : CapabilityGraph) (r : ResolvedCapabilityGraph) → resolve g ≡ ok r → Resolves g r
resolve-Resolves g r e = subst (Resolution g) e (resolve-Resolution g)

-- Resolution always returns. It gives an order that holds each registered capability once and after
-- everything that it requires, or it fails with a requirement that is not registered or with a
-- cycle of requirements.
pub resolve_decides :
    (g : CapabilityGraph)
    → ((r : ResolvedCapabilityGraph) × (resolve g ≡ ok r) × Resolves g r)
      ⊎ ((e : CapabilityGraphError) × (resolve g ≡ err e) × Fault g e)
resolve_decides g = by_result (resolve g) refl (resolve-Resolution g)
  where
    by_result :
        (r : Result CapabilityGraphError ResolvedCapabilityGraph)
        → resolve g ≡ r
        → Resolution g r
        → ((r : ResolvedCapabilityGraph) × (resolve g ≡ ok r) × Resolves g r)
          ⊎ ((e : CapabilityGraphError) × (resolve g ≡ err e) × Fault g e)
    by_result (ok r) e h = inl (r, e, h)
    by_result (err f) e h = inr (f, e, h)
    by_result panic e h = absurd h
    by_result out_of_fuel e h = absurd h
