-- ===== src/Capability/Resolver.antt =====
-- crates/capability-graph/src/resolver.rs: the graph of capability definitions and its resolution.
pub mod Construction
pub mod Invariant
pub mod Search
pub mod Outcome
pub mod Acceptance
pub mod Registration
pub mod Admission
use graph_core.Base.{
  ℕ, zero, suc, Bool, List, [], ◌∷◌, ◌++◌, Option, none, some, length, is_empty, drop_last,
}
use graph_core.Base.Results.{Result, ok, err, panic, out_of_fuel, ensure, expect, ◌>>=◌, ◌>>◌}
use graph_core.Base.BTreeMap.{BTreeMap, keys, get, insert, contains_key}
use graph_core.Base.Walks.{from_position}
use graph_core.Core.Ident.{Ident, ident_ord}
use graph_core.Capability.Definition.{CapabilityDefinition, add_dependency, dependency_ids}
use mathlib.Core.List.{reverse}

pub data CapabilityGraphError : Type 0 where
  unknown_capability : Ident → CapabilityGraphError
  missing_dependency : (capability dependency : Ident) → CapabilityGraphError
  cycle : (path : List Ident) → CapabilityGraphError

pub record CapabilityGraph : Type 0 where
  pub definitions : BTreeMap Ident CapabilityDefinition

abbrev pub empty : CapabilityGraph
empty = record { definitions = [] }

-- The graph with the definition, and the definition that it replaces.
unfoldable pub insert_definition :
    CapabilityGraph → CapabilityDefinition → CapabilityGraph × Option CapabilityDefinition
insert_definition g c =
    (record { definitions = insert c.id c g.definitions }, get c.id g.definitions)

unfoldable pub require :
    CapabilityGraph → Ident → Ident → Result CapabilityGraphError CapabilityGraph
require g consumer dependency = do
  ensure (contains_key consumer g.definitions) (unknown_capability consumer)
  ensure (contains_key dependency g.definitions) (missing_dependency consumer dependency)
  expect (get consumer g.definitions) >>= λ c.
      ok (record { definitions = insert consumer (add_dependency c dependency) g.definitions })

unfoldable pub requirements : CapabilityGraph → Ident → List Ident
requirements g capability = elim (get capability g.definitions) [
  | none ↦ []
  | some c ↦ dependency_ids c
]

unfoldable pub len : CapabilityGraph → ℕ
len g = length g.definitions

unfoldable pub has_no_capability : CapabilityGraph → Bool
has_no_capability g = is_empty g.definitions

abbrev pub insert_all : List CapabilityDefinition → CapabilityGraph → CapabilityGraph
insert_all [] g = g
insert_all (c ∷ cs) g = insert_all cs (insert_definition g c).0

unfoldable pub from_definitions : List CapabilityDefinition → CapabilityGraph
from_definitions cs = insert_all cs empty

pub data VisitState : Type 0 where
  active done : VisitState

-- What `visit` changes through its mutable references.
pub record Walk : Type 0 where
  pub states : BTreeMap Ident VisitState
  pub active_path : List Ident
  pub construction_order : List Ident

abbrev pub Visit : Type 0
Visit = Result CapabilityGraphError Walk

-- An active capability closes a cycle with the active path.
unfoldable pub close_cycle : Ident → List Ident → Visit
close_cycle id active_path = elim (from_position id active_path) [
  | none ↦ panic
  | some path ↦ err (cycle (path ++ id ∷ []))
]

abbrev pub enter : Ident → Walk → Walk
enter id w = record w { states = insert id active w.states; active_path = w.active_path ++ id ∷ [] }

abbrev pub leave : Ident → Walk → Walk
leave id w = record w {
  active_path = drop_last w.active_path;
  states = insert id done w.states;
  construction_order = w.construction_order ++ id ∷ [];
}

-- The loop of `visit` over the dependencies of `id`; `rec` visits one that is registered.
unfoldable pub visit_all :
    BTreeMap Ident CapabilityDefinition → (Ident → Walk → Visit) → Ident → List Ident → Walk → Visit
visit_all definitions rec id [] w = ok w
visit_all definitions rec id (d ∷ ds) w = do
  ensure (contains_key d definitions) (missing_dependency id d)
  rec d w >>= λ w'. visit_all definitions rec id ds w'

-- The fuel bounds the depth of the calls.
unfoldable pub visit : ℕ → BTreeMap Ident CapabilityDefinition → Ident → Walk → Visit
visit zero definitions id w = out_of_fuel
visit (suc fuel) definitions id w = elim (get id w.states) [
  | some done ↦ ok w
  | some active ↦ close_cycle id w.active_path
  | none ↦ expect (get id definitions) >>= λ definition.
      visit_all definitions (visit fuel definitions) id (dependency_ids definition) (enter id w)
      >>= λ w'. ok (leave id w')
]

pub record ResolvedCapabilityGraph : Type 0 where
  pub construction_order : List Ident

unfoldable pub teardown_order : ResolvedCapabilityGraph → List Ident
teardown_order r = reverse r.construction_order

-- The loop of `resolve` over the identifiers.
unfoldable pub visit_keys : (Ident → Walk → Visit) → List Ident → Walk → Visit
visit_keys rec [] w = ok w
visit_keys rec (id ∷ ids) w = rec id w >>= λ w'. visit_keys rec ids w'

abbrev pub start : Walk
start = record { states = []; active_path = []; construction_order = [] }

-- A chain of calls enters each definition at most once, and its last call enters none.
unfoldable pub resolve : CapabilityGraph → Result CapabilityGraphError ResolvedCapabilityGraph
resolve g =
    visit_keys (visit (suc (length g.definitions)) g.definitions) (keys g.definitions) start
    >>= λ w. ok (record { construction_order = w.construction_order })

pub record ValidatedCapabilityDefinition : Type 0 where
  pub definition : CapabilityDefinition
  pub resolution : ResolvedCapabilityGraph

unfoldable pub validate_candidate :
    CapabilityGraph
    → CapabilityDefinition
    → Result CapabilityGraphError ValidatedCapabilityDefinition
validate_candidate g candidate = resolve (insert_definition g candidate).0 >>= λ resolution.
    ok (record { definition = candidate; resolution = resolution })
