-- ===== src/Capability/Resolver/Registration.antt =====
-- What declaring a requirement does to the graph.
use graph_core.Base.{
  ◌≡◌, refl, sym, ap, ◌⊎◌, inl, inr, ◌↔◌, true, false, Option, none, some, Memᴰ, arith, Bool-cases,
}
use graph_core.Base.Results.{ok, err}
use graph_core.Base.Order.{◌==◌, ==_iff}
use graph_core.Base.BTreeMap.{keys, get, insert, contains_key, get-insert, mem_keys-insert}
use graph_core.Base.Walks.{Edge}
use graph_core.Core.Ident.{Ident, ident_ord}
use graph_core.Capability.Definition.{
  CapabilityDefinition, Dependency, dependency_ord, eq_of_id, add_dependency, dependency_ids,
}
use graph_core.Capability.Resolver.{
  unknown_capability, missing_dependency, CapabilityGraph, requirements, require,
}
use mathlib.Core.List.Memᴰ

abbrev on : Ident → Dependency
on d = record { id = d }

on_iff : (a b : Ident) → (on a ≡ on b) ↔ (a ≡ b)
on_iff a b = (ap (λ (x : Dependency). x.id), eq_of_id (on a) (on b))

mem-dependency_ids :
    (c : CapabilityDefinition) (d : Ident)
    → Memᴰ d (dependency_ids c) ↔ Memᴰ (on d) (keys c.dependencies)
mem-dependency_ids c d = (
  λ m.
      let (x, here, e) = Memᴰ.of_map (λ (x : Dependency). x.id) (keys c.dependencies) m in
      Memᴰ.cast (eq_of_id (on d) x (sym e)) here,
  Memᴰ.map (λ (x : Dependency). x.id),
)

mem-add_dependency :
    (c : CapabilityDefinition) (added d : Ident)
    → Memᴰ d (dependency_ids (add_dependency c added)) ↔ ((d ≡ added) ⊎ Memᴰ d (dependency_ids c))
unfolding add_dependency
mem-add_dependency c added d = ground (
  arith,
  mem-dependency_ids c d,
  mem-dependency_ids (add_dependency c added) d,
  mem_keys-insert (on d) (on added) tt c.dependencies,
  on_iff d added,
)

pub requirements_of :
    (g : CapabilityGraph) (v : Ident) (c : CapabilityDefinition)
    → get v g.definitions ≡ some c
    → requirements g v ≡ dependency_ids c
unfolding requirements
requirements_of g v c e = rw (e, requirements) refl

requirements_cong :
    (g h : CapabilityGraph) (v w : Ident)
    → get v g.definitions ≡ get w h.definitions
    → requirements g v ≡ requirements h w
unfolding requirements
requirements_cong g h v w e = rw (e, requirements) refl

-- The consumer requires one capability more; all else is as before.
abbrev pub Requires : CapabilityGraph → Ident → Ident → CapabilityGraph → Type 0
Requires g consumer dependency g' =
    ((v d : Ident)
      → Edge (requirements g') v d
        ↔ (Edge (requirements g) v d ⊎ ((v ≡ consumer) × (d ≡ dependency))))
    × ((v : Ident) → contains_key v g'.definitions ≡ contains_key v g.definitions)

module _ (g : CapabilityGraph) (consumer dependency : Ident) (c : CapabilityDefinition) where
  abbrev after_require : CapabilityGraph
  after_require = record {
    definitions = insert consumer (add_dependency c dependency) g.definitions;
  }

  Requires-with : get consumer g.definitions ≡ some c → Requires g consumer dependency after_require
  Requires-with e = (
    λ v d. elim (Bool-cases (consumer == v)) [
      | inl same ↦
          let found : get v g.definitions ≡ some c = ground (arith, ==_iff consumer v) in
          let found' : get v after_require.definitions ≡ some (add_dependency c dependency) =
            ground (arith, get-insert v consumer (add_dependency c dependency) g.definitions) in
          rw (requirements_of after_require v _ found', requirements_of g v c found)
            (ground (arith, mem-add_dependency c dependency d, ==_iff consumer v))
      | inr other ↦
          rw
            (requirements_cong after_require g v v
              (ground (arith, get-insert v consumer (add_dependency c dependency) g.definitions)))
            (ground (arith, ==_iff consumer v))
    ],
    λ v. ground (
      arith,
      get-insert v consumer (add_dependency c dependency) g.definitions,
      ==_iff consumer v,
    ),
  )

module _ (g : CapabilityGraph) (consumer dependency : Ident) where
  -- The three ways in which `require` ends.
  abbrev pub Required : Type 0
  Required =
      ((contains_key consumer g.definitions ≡ false)
        × (require g consumer dependency ≡ err (unknown_capability consumer)))
      ⊎ ((contains_key consumer g.definitions ≡ true)
          × (contains_key dependency g.definitions ≡ false)
          × (require g consumer dependency ≡ err (missing_dependency consumer dependency)))
      ⊎ ((contains_key consumer g.definitions ≡ true)
          × (contains_key dependency g.definitions ≡ true)
          × ((g' : CapabilityGraph) × (require g consumer dependency ≡ ok g')
              × Requires g consumer dependency g'))

-- `require` fails on a consumer or a dependency that is not registered, in that order, and otherwise
-- adds the one requirement: what is registered and what else is required stay the same.
pub require_lem :
    (g : CapabilityGraph) (consumer dependency : Ident) → Required g consumer dependency
unfolding require
require_lem g consumer dependency =
    by_cases (get consumer g.definitions) refl (Bool-cases (contains_key dependency g.definitions))
  where
    by_cases :
        (o : Option CapabilityDefinition)
        → get consumer g.definitions ≡ o
        → (contains_key dependency g.definitions ≡ true)
          ⊎ (contains_key dependency g.definitions ≡ false)
        → Required g consumer dependency
    by_cases none e _ = inl (ground arith, ground arith)
    by_cases (some c) e (inr missing) = inr (inl (ground arith, missing, ground arith))
    by_cases (some c) e (inl there) = inr (
        inr (
          ground arith,
          there,
          (
            after_require g consumer dependency c,
            ground arith,
            Requires-with g consumer dependency c e,
          ),
        ))
