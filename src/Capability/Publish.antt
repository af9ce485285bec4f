-- ===== src/Capability/Publish.antt =====
-- crates/capability-graph/src/runtime.rs: publication, replacement and withdrawal in a scope.
--
-- A publication takes the topology lock twice: to read, before its factory runs, and to write, when
-- it publishes. Each of the two is one step here, so other calls can come in between.
pub mod Guards
pub mod Visibility
pub mod Publication
pub mod Tests
use graph_core.Base.{
  ℕ, suc, Bool, List, [], ◌∷◌, Option, none, some, not, ◌&&◌, ◌||◌, if◌then◌else◌,
}
use graph_core.Base.Words.{checked_add}
use graph_core.Base.Results.{
  Result, ok, err, panic, out_of_fuel, ensure, ok_or, expect, ◌>>=◌, ◌>>◌,
}
use graph_core.Base.Order.{◌==◌, nat_ord}
use graph_core.Base.BTreeMap.{BTreeMap, get, insert, remove}
use graph_core.Core.Ident.{Text, Ident, ident_ord}
use graph_core.Capability.Definition.{CapabilityDefinition, dependency_ids}
use graph_core.Capability.Generation.{Generation, generation_ord, first, checked_next}
use graph_core.Capability.Resolver.{
  CapabilityGraph, CapabilityGraphError, ValidatedCapabilityDefinition, validate_candidate,
}
use graph_core.Capability.Resolver
use graph_core.Capability.Entry.{
  EntryId, entry_ord, CapabilityHandle, ResolvedDependencies, no_handles, handles, ScopeError,
  graph_admission, missing_dependency, construction_failed, already_provided, no_local_entry,
  replacement_conflict, dependency_changed, generation_exhausted, closed,
}
use graph_core.Capability.Entry
use graph_core.Capability.Scope.{
  CapabilityEntry, handle_of, Scope, chain, ScopeState, Scopes, state_at, with_state, is_open,
  lookup, visible_graph, visible_graph_with_entries, live_descendants, candidate_affects,
}
use graph_core.Capability.Checks.{
  PublishExpectation, from_graph, admitted, from_handles, get_handle, resolve_all,
  resolve_dependencies, same_entry, check_unchanged, check_entry, check_expectation,
  check_descendants, validate_descendant_admission, next_generation, admit, check_publication,
  new_entry, replace_entry,
}

-- `allocate_entry_id` panics where the counter would overflow.
abbrev pub allocate_entry_id : Scopes → Result ScopeError EntryId
allocate_entry_id w =
    expect (checked_add w.next_entry 1) >>= λ _. ok (record { value = w.next_entry })

abbrev pub with_entry : Scopes → Scope → CapabilityEntry → Scopes
with_entry w s e =
    let st = state_at w s.key in
    with_state (record w { next_entry = suc w.next_entry }) s.key
      (record st { entries = insert e.definition.id e st.entries })

-- The entry that is published if no guard refuses it.
unfoldable pub prepare_entry :
    (ℕ → Bool)
    → Scopes
    → Scope
    → CapabilityDefinition
    → PublishExpectation
    → ResolvedDependencies
    → Result ScopeError CapabilityEntry
prepare_entry alive w s c expectation dependencies = do
  generation ← check_publication alive w s c expectation dependencies
  entry_id ← allocate_entry_id w
  ok (record {
    definition = c;
    dependencies = dependencies;
    generation = generation;
    entry_id = entry_id;
  })

-- The second part of `publish`, and `provide_value` once it compared the snapshot.
unfoldable pub publish_preconstructed :
    (ℕ → Bool)
    → Scopes
    → Scope
    → CapabilityDefinition
    → PublishExpectation
    → ResolvedDependencies
    → Scopes × Result ScopeError CapabilityHandle
publish_preconstructed alive w s c expectation dependencies =
    elim (prepare_entry alive w s c expectation dependencies) [
      | ok entry ↦ (with_entry w s entry, ok (handle_of entry))
      | err e ↦ (w, err e)
      | panic ↦ (w, panic)
      | out_of_fuel ↦ (w, out_of_fuel)
    ]

abbrev pub without_entry : Scopes → Scope → Ident → Scopes
without_entry w s id =
    let st = state_at w s.key in with_state w s.key (record st { entries = remove id st.entries })

-- The handle of the removed entry retains its value.
unfoldable pub withdraw :
    Scopes → Scope → Ident → Generation → Scopes × Result ScopeError CapabilityHandle
withdraw w s id expected =
    if not (is_open w s.key) then (w, err closed) else elim (get id (state_at w s.key).entries) [
      | none ↦ (w, err (no_local_entry id))
      | some e ↦
          if e.generation == expected
          then (without_entry w s id, ok (handle_of e))
          else (w, err (replacement_conflict id expected e.generation))
    ]

-- `publish` after its factory returned.
unfoldable pub constructed :
    (ℕ → Bool)
    → Scope
    → CapabilityDefinition
    → PublishExpectation
    → ResolvedDependencies
    → Scopes × Result Text (Unit {0})
    → Scopes × Result ScopeError CapabilityHandle
constructed alive s c expectation dependencies (w, ok _) =
    publish_preconstructed alive w s c expectation dependencies
constructed alive s c expectation dependencies (w, err reason) =
    (w, err (construction_failed c.id reason))
constructed alive s c expectation dependencies (w, panic) = (w, panic)
constructed alive s c expectation dependencies (w, out_of_fuel) = (w, out_of_fuel)

-- `publish`. What `construct` returns beside its result is the store when it returned: the factory is
-- code of the caller and runs without the lock, and so may others meanwhile.
unfoldable pub publish :
    (ℕ → Bool)
    → Scopes
    → Scope
    → CapabilityDefinition
    → PublishExpectation
    → (ResolvedDependencies → Scopes → Scopes × Result Text (Unit {0}))
    → Scopes × Result ScopeError CapabilityHandle
publish alive w s c expectation construct = elim (admit w s c expectation) [
  | ok dependencies ↦ constructed alive s c expectation dependencies (construct dependencies w)
  | err e ↦ (w, err e)
  | panic ↦ (w, panic)
  | out_of_fuel ↦ (w, out_of_fuel)
]

abbrev pub provide :
    (ℕ → Bool)
    → Scopes
    → Scope
    → CapabilityDefinition
    → (ResolvedDependencies → Scopes → Scopes × Result Text (Unit {0}))
    → Scopes × Result ScopeError CapabilityHandle
provide alive w s c = publish alive w s c new_entry

abbrev pub replace :
    (ℕ → Bool)
    → Scopes
    → Scope
    → CapabilityDefinition
    → Generation
    → (ResolvedDependencies → Scopes → Scopes × Result Text (Unit {0}))
    → Scopes × Result ScopeError CapabilityHandle
replace alive w s c expected = publish alive w s c (replace_entry expected)

-- The loop of `provide_value`; `visible` is `self.get`.
unfoldable pub check_visible :
    (Ident → Option CapabilityHandle)
    → ResolvedDependencies
    → Ident
    → List Ident
    → Result ScopeError (Unit {0})
check_visible visible expected id [] = ok tt
check_visible visible expected id (d ∷ ds) = do
  a ← expect (get_handle d expected)
  b ← ok_or (visible d) (missing_dependency id d)
  ensure (same_entry b a) (dependency_changed id d)
  check_visible visible expected id ds

-- The comparison is made without the lock; `meanwhile` is what others do until the lock is taken.
unfoldable pub provide_value :
    (ℕ → Bool)
    → (Scopes → Scopes)
    → Scopes
    → Scope
    → CapabilityDefinition
    → ResolvedDependencies
    → Scopes × Result ScopeError CapabilityHandle
provide_value alive meanwhile w s c dependencies =
    elim (check_visible (lookup w (chain s)) dependencies c.id (dependency_ids c)) [
      | ok _ ↦ publish_preconstructed alive (meanwhile w) s c new_entry dependencies
      | err e ↦ (w, err e)
      | panic ↦ (w, panic)
      | out_of_fuel ↦ (w, out_of_fuel)
    ]

-- `withdraw(..).map(drop)`.
unfoldable pub remove_local :
    Scopes → Scope → Ident → Generation → Scopes × Result ScopeError (Unit {0})
remove_local w s id expected =
    let (w', result) = withdraw w s id expected in (w', result >>= λ _. ok tt)

unfoldable pub validate_definition :
    Scopes → Scope → CapabilityDefinition → Result ScopeError ValidatedCapabilityDefinition
validate_definition w s c =
    if not (is_open w s.key)
    then err closed
    else admitted (validate_candidate (visible_graph w s) c)
