-- ===== src/Capability/Teardown/Tests.antt =====
-- A run of `teardown` in crates/capability-graph/src/runtime.rs that panics.
use graph_core.Base.{ℕ, ◌≡◌, refl, Bool, true, [], ◌∷◌}
use graph_core.Base.Walks.{from_position}
use graph_core.Base.Results.{Result, ok, panic}
use graph_core.Base.Order.{ord_by, nat_ord, list_ord, lex}
use graph_core.Base.BTreeMap.{get, insert}
use graph_core.Core.Ident.{Ident, ident_ord}
use graph_core.Capability.Definition
use graph_core.Capability.Definition.{CapabilityDefinition, dependency_ord}
use graph_core.Capability.Generation.{generation_ord, first, checked_next}
use graph_core.Capability.Resolver.{
  insert_definition, from_definitions, close_cycle, visit_all, visit, visit_keys, resolve,
  validate_candidate, teardown_order,
}
use graph_core.Capability.Entry.{handle, no_handles, CapabilityHandle, entry_ord}
use graph_core.Capability.Entry
use graph_core.Capability.Scope.{
  Scope, Scopes, is_open, root, child, lookup, visible_definitions, visible_graph,
  visible_graph_with_entries, list_below, descendants_from, live_descendants, candidate_affects,
  has_local,
}
use graph_core.Capability.Checks.{
  admit, resolve_all, resolve_dependencies, get_handle, check_unchanged, check_entry,
  check_expectation, check_descendants, validate_descendant_admission, next_generation,
  check_publication, PublishExpectation, new_entry, replace_entry,
}
use graph_core.Capability.Publish.{publish, constructed, prepare_entry, publish_preconstructed}
use graph_core.Capability.Entry.{ResolvedDependencies}
use graph_core.Core.Ident.{Text}
use graph_core.Capability.Teardown.{
  insert_snapshot, insert_snapshots, runtime_graph, runtime_teardown_order, collect_below,
  collect_descendants_child_first, close_scopes, teardown,
}

abbrev b : Ident
b = record { value = 98 ∷ [] }

abbrev d : Ident
d = record { value = 100 ∷ [] }

abbrev e : Ident
e = record { value = 101 ∷ [] }

abbrev defines : Ident → CapabilityDefinition
defines id = Definition.new id []

abbrev everyone : ℕ → Bool
everyone _ = true

abbrev top : Scope
top = record { key = 0; ancestors = [] }

abbrev below : Scope
below = record { key = 1; ancestors = 0 ∷ [] }

-- A factory that only returns a value.
abbrev value : ResolvedDependencies → Scopes → Scopes × Result Text (Unit {0})
value _ w = (w, ok tt)

abbrev publishes : Scope → CapabilityDefinition → PublishExpectation → Scopes → Scopes
publishes s c x w = (publish everyone w s c x value).0

-- The parent provides E and D, which requires E; the child provides B, which requires D; the parent
-- replaces D by one without requirements; the child provides an E of its own that requires D.
published : Scopes
published = publishes below (Definition.depends_on (defines e) d) new_entry (
    publishes top (defines d) (replace_entry first) (
      publishes below (Definition.depends_on (defines b) d) new_entry (
        publishes top (Definition.depends_on (defines d) e) new_entry (
          publishes top (defines e) new_entry
            (child (root (record { states = []; next_key = 0; next_entry = 1 })).0 top).0))))

-- All five publications were accepted.
all_published : published.next_entry ≡ 6
unfolding published publish admit constructed publish_preconstructed prepare_entry check_publication
    resolve_dependencies resolve_all get_handle check_unchanged validate_descendant_admission
    live_descendants descendants_from list_below check_descendants candidate_affects has_local
    validate_candidate resolve visit_keys visit visit_all close_cycle from_position visible_graph
    visible_graph_with_entries visible_definitions from_definitions insert_definition
    check_expectation check_entry next_generation is_open lookup root child get insert ord_by
    nat_ord list_ord lex ident_ord dependency_ord generation_ord entry_ord checked_next
    Definition.new Definition.depends_on Entry.generation Entry.entry_id
all_published = refl

-- The snapshot of B still has the first D, so the graph of the child's entries goes round.
teardown_panics : (teardown everyone published below).1 ≡ panic
unfolding published publish admit constructed publish_preconstructed prepare_entry check_publication
    resolve_dependencies resolve_all get_handle check_unchanged validate_descendant_admission
    live_descendants descendants_from list_below check_descendants candidate_affects has_local
    validate_candidate resolve visit_keys visit visit_all close_cycle from_position visible_graph
    visible_graph_with_entries visible_definitions from_definitions insert_definition
    check_expectation check_entry next_generation is_open lookup root child get insert ord_by
    nat_ord list_ord lex ident_ord dependency_ord generation_ord entry_ord checked_next
    Definition.new Definition.depends_on Entry.generation Entry.entry_id teardown
    collect_descendants_child_first collect_below close_scopes runtime_teardown_order runtime_graph
    insert_snapshot insert_snapshots teardown_order
teardown_panics = refl
