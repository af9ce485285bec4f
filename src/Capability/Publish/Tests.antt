-- ===== src/Capability/Publish/Tests.antt =====
-- Runs of crates/capability-graph/src/runtime.rs, and the theorems at concrete scopes.
use graph_core.Base.{ℕ, ◌≡◌, refl, Bool, true, [], ◌∷◌, some}
use graph_core.Base.Walks.{from_position}
use graph_core.Base.Order.{ord_by, nat_ord, list_ord, lex}
use graph_core.Base.BTreeMap.{get, insert}
use graph_core.Core.Ident.{Ident, ident_ord}
use graph_core.Capability.Definition
use graph_core.Capability.Definition.{CapabilityDefinition}
use graph_core.Capability.Generation.{generation_ord, first}
use graph_core.Capability.Resolver.{
  insert_definition, from_definitions, close_cycle, visit_all, visit, visit_keys, resolve,
  validate_candidate,
}
use graph_core.Capability.Entry.{handle, no_handles}
use graph_core.Capability.Scope.{
  Scope, Scopes, is_open, has_local, root, child, lookup, get_visible, visible_definitions,
  visible_graph, visible_graph_with_entries, list_below, descendants_from, live_descendants,
  candidate_affects,
}
use graph_core.Capability.Checks.{
  new_entry, resolve_all, resolve_dependencies, check_unchanged, check_entry, check_expectation,
  check_descendants, validate_descendant_admission, next_generation, check_publication,
}
use graph_core.Capability.Publish.{prepare_entry, publish_preconstructed, withdraw}
use graph_core.Capability.Publish.Publication.{
  Publication, publish_preconstructed_lem, Withdrawal, withdraw_lem,
}

abbrev log : Ident
log = record { value = 99 ∷ [] }

abbrev log_definition : CapabilityDefinition
log_definition = Definition.new log []

abbrev everyone : ℕ → Bool
everyone _ = true

abbrev top : Scope
top = record { key = 0; ancestors = [] }

abbrev below : Scope
below = record { key = 1; ancestors = 0 ∷ [] }

-- A scope with a child.
scopes : Scopes
scopes = (child (root (record { states = []; next_key = 0; next_entry = 1 })).0 top).0

publishing : Scopes
publishing = (publish_preconstructed everyone scopes top log_definition new_entry no_handles).0

child_sees_the_entry :
    get_visible publishing below log
    ≡ some (handle log_definition first (record { value = 1 }) no_handles)
unfolding publishing scopes publish_preconstructed prepare_entry check_publication
    resolve_dependencies resolve_all check_unchanged validate_descendant_admission live_descendants
    descendants_from list_below check_descendants candidate_affects validate_candidate resolve
    visit_keys visit visit_all close_cycle from_position visible_graph visible_graph_with_entries
    visible_definitions from_definitions insert_definition check_expectation check_entry
    next_generation is_open lookup root child get insert ord_by nat_ord list_ord lex ident_ord
    Definition.new has_local
child_sees_the_entry = refl

publish_preconstructed_lem_example :
    Publication everyone scopes top log_definition new_entry no_handles
      (publish_preconstructed everyone scopes top log_definition new_entry no_handles)
publish_preconstructed_lem_example =
    publish_preconstructed_lem everyone scopes top log_definition new_entry no_handles

withdraw_lem_example : Withdrawal publishing top log first (withdraw publishing top log first)
withdraw_lem_example = withdraw_lem publishing top log first
