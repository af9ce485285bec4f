-- ===== src/Capability/Teardown.antt =====
-- crates/capability-graph/src/runtime.rs: the teardown of a scope and its live descendants.
--
-- A panic leaves the topology lock poisoned, so no later call on these scopes returns.
pub mod Tests
use graph_core.Base.{
  ℕ, zero, suc, Bool, true, false, List, [], ◌∷◌, ◌++◌, Option, none, some, is_some, if◌then◌else◌,
}
use graph_core.Base.Results.{Result, ok, err, panic, out_of_fuel, ◌>>=◌}
use graph_core.Base.Order.{nat_ord}
use graph_core.Base.BTreeMap.{BTreeMap, BTreeSet, get, insert, remove, contains_key, values}
use graph_core.Core.Ident.{Ident, ident_ord}
use graph_core.Capability.Definition.{CapabilityDefinition}
use graph_core.Capability.Resolver.{
  CapabilityGraph, CapabilityGraphError, ResolvedCapabilityGraph, empty, insert_definition, resolve,
  teardown_order,
}
use graph_core.Capability.Entry.{
  EntryId, entry_ord, CapabilityHandle, handle, ResolvedDependencies, no_handles, handles,
  ScopeError,
}
use graph_core.Capability.Scope.{
  Lifecycle, closing, closed_down, CapabilityEntry, Scope, ScopeState, Scopes, state_at, with_state,
  is_open,
}

-- The graph that is built, and the entries that were met.
pub record Snapshot : Type 0 where
  pub graph : CapabilityGraph
  pub visited : BTreeSet EntryId

-- `entry(id).or_insert_with(..)`.
abbrev pub or_insert : CapabilityDefinition → CapabilityGraph → CapabilityGraph
or_insert c g = if contains_key c.id g.definitions then g else (insert_definition g c).0

unfoldable mutual
  pub insert_snapshot : CapabilityHandle → Snapshot → Snapshot
  insert_snapshot (handle c g e ds) s =
      let met =
        insert_snapshots ds
          (record { graph = or_insert c s.graph; visited = insert e tt s.visited }) in
      if contains_key e s.visited then s else met

  -- The loop over the dependencies of a handle.
  pub insert_snapshots : ResolvedDependencies → Snapshot → Snapshot
  insert_snapshots no_handles s = s
  insert_snapshots (handles id h ds) s = insert_snapshots ds (insert_snapshot h s)

-- The loop over the current entries.
abbrev pub insert_current : List CapabilityEntry → Snapshot → Snapshot
insert_current [] s = s
insert_current (e ∷ es) s = insert_current es (record {
  graph = (insert_definition s.graph e.definition).0;
  visited = insert e.entry_id tt s.visited;
})

abbrev pub insert_dependencies : List CapabilityEntry → Snapshot → Snapshot
insert_dependencies [] s = s
insert_dependencies (e ∷ es) s = insert_dependencies es (insert_snapshots e.dependencies s)

unfoldable pub runtime_graph : BTreeMap Ident CapabilityEntry → CapabilityGraph
runtime_graph entries =
    (insert_dependencies (values entries)
      (insert_current (values entries) (record { graph = empty; visited = [] }))).graph

-- `resolve().expect(..)`.
abbrev pub resolved_order :
    Result CapabilityGraphError ResolvedCapabilityGraph → Result ScopeError (List Ident)
resolved_order (ok r) = ok (teardown_order r)
resolved_order (err _) = panic
resolved_order panic = panic
resolved_order out_of_fuel = out_of_fuel

unfoldable pub runtime_teardown_order :
    BTreeMap Ident CapabilityEntry → Result ScopeError (List Ident)
runtime_teardown_order entries = resolved_order (resolve (runtime_graph entries))

pub record TeardownPlan : Type 0 where
  pub entries : BTreeMap Ident CapabilityEntry
  pub order : List Ident

module _ (alive : ℕ → Bool) where
  unfoldable pub collect_below :
      (ℕ → Result ScopeError (List Scope)) → List Scope → Result ScopeError (List Scope)
  collect_below rec [] = ok []
  collect_below rec (c ∷ cs) =
      let rest = collect_below rec cs in
      if alive c.key
      then (rec c.key >>= λ below. rest >>= λ later. ok (below ++ c ∷ later))
      else rest

  -- The fuel bounds the depth of the hierarchy.
  unfoldable pub collect_descendants_child_first : ℕ → Scopes → ℕ → Result ScopeError (List Scope)
  collect_descendants_child_first zero w k = out_of_fuel
  collect_descendants_child_first (suc fuel) w k =
      collect_below (collect_descendants_child_first fuel w) (state_at w k).children

abbrev pub emptied : Lifecycle → ScopeState → ScopeState
emptied l st = record st { entries = []; lifecycle = l }

-- The loop over the scopes: those that are open are emptied and closed.
unfoldable pub close_scopes : List Scope → Scopes → Scopes × Result ScopeError (List TeardownPlan)
close_scopes [] w = (w, ok [])
close_scopes (s ∷ ss) w =
    let st = state_at w s.key in
    let closed = close_scopes ss (with_state w s.key (emptied closed_down st)) in
    let skipped = close_scopes ss w in
    if is_open w s.key
    then elim (runtime_teardown_order st.entries) [
      | ok order ↦ (
        closed.0,
        closed.1 >>= λ plans. ok (record { entries = st.entries; order = order } ∷ plans),
      )
      | err e ↦ (with_state w s.key (emptied closing st), err e)
      | panic ↦ (with_state w s.key (emptied closing st), panic)
      | out_of_fuel ↦ (with_state w s.key (emptied closing st), out_of_fuel)
    ]
    else skipped

-- The part of `teardown` under the lock.
unfoldable pub teardown :
    (ℕ → Bool) → Scopes → Scope → Scopes × Result ScopeError (List TeardownPlan)
teardown alive w s = elim (collect_descendants_child_first alive (suc w.next_key) w s.key) [
  | ok scopes ↦ close_scopes (scopes ++ s ∷ []) w
  | err e ↦ (w, err e)
  | panic ↦ (w, panic)
  | out_of_fuel ↦ (w, out_of_fuel)
]

-- The entries of a plan in the order in which they are dropped.
unfoldable pub drop_order : List Ident → BTreeMap Ident CapabilityEntry → List CapabilityEntry
drop_order [] entries = values entries
drop_order (id ∷ ids) entries =
    let left = drop_order ids (remove id entries) in
    let kept = drop_order ids entries in elim (get id entries) [ none ↦ kept | some e ↦ e ∷ left ]

unfoldable pub drop_teardown_plans : List TeardownPlan → List CapabilityEntry
drop_teardown_plans [] = []
drop_teardown_plans (plan ∷ plans) = drop_order plan.order plan.entries ++ drop_teardown_plans plans
