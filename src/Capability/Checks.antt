-- ===== src/Capability/Checks.antt =====
-- crates/capability-graph/src/runtime.rs: what is checked before an entry is published.
use graph_core.Base.{ℕ, Bool, List, [], ◌∷◌, Option, none, some, not, ◌&&◌, ◌||◌, if◌then◌else◌}
use graph_core.Base.Results.{
  Result, ok, err, panic, out_of_fuel, ensure, ok_or, expect, ◌>>=◌, ◌>>◌,
}
use graph_core.Base.Order.{◌==◌, nat_ord}
use graph_core.Base.BTreeMap.{BTreeMap, get, insert}
use graph_core.Core.Ident.{Ident, ident_ord}
use graph_core.Capability.Definition.{CapabilityDefinition, dependency_ids}
use graph_core.Capability.Generation.{Generation, generation_ord, first, checked_next}
use graph_core.Capability.Resolver.{
  CapabilityGraph, CapabilityGraphError, ValidatedCapabilityDefinition, validate_candidate,
}
use graph_core.Capability.Resolver
use graph_core.Capability.Entry.{
  EntryId, entry_ord, CapabilityHandle, ResolvedDependencies, no_handles, handles, ScopeError,
  graph_admission, missing_dependency, construction_failed, already_provided, no_local_entry,
  replacement_conflict, dependency_changed, generation_exhausted, closed,
}
use graph_core.Capability.Entry
use graph_core.Capability.Scope.{
  CapabilityEntry, Scope, chain, Scopes, state_at, is_open, lookup, visible_graph,
  visible_graph_with_entries, live_descendants, candidate_affects,
}

pub data PublishExpectation : Type 0 where
  new_entry : PublishExpectation
  replace_entry : Generation → PublishExpectation

-- `From<CapabilityGraphError>`, as `?` and `map_err` use it.
abbrev pub from_graph : CapabilityGraphError → ScopeError
from_graph (Resolver.missing_dependency c d) = missing_dependency c d
from_graph e = graph_admission e

abbrev pub admitted : {A : Type 0} → Result CapabilityGraphError A → Result ScopeError A
admitted (ok a) = ok a
admitted (err e) = err (from_graph e)
admitted panic = panic
admitted out_of_fuel = out_of_fuel

abbrev pub from_handles : BTreeMap Ident CapabilityHandle → ResolvedDependencies
from_handles [] = no_handles
from_handles ((id, h) ∷ m) = handles id h (from_handles m)

-- `ResolvedDependencies::get`.
unfoldable pub get_handle : Ident → ResolvedDependencies → Option CapabilityHandle
get_handle id no_handles = none
get_handle id (handles j h ds) = let rest = get_handle id ds in if j == id then some h else rest

-- The loop of `resolve_dependencies`; `visible` is `self.get`.
unfoldable pub resolve_all :
    (Ident → Option CapabilityHandle)
    → Ident
    → List Ident
    → BTreeMap Ident CapabilityHandle
    → Result ScopeError (BTreeMap Ident CapabilityHandle)
resolve_all visible id [] m = ok m
resolve_all visible id (d ∷ ds) m = do
  h ← ok_or (visible d) (missing_dependency id d)
  resolve_all visible id ds (insert d h m)

unfoldable pub resolve_dependencies :
    Scopes → Scope → CapabilityDefinition → Result ScopeError ResolvedDependencies
resolve_dependencies w s c =
    resolve_all (lookup w (chain s)) c.id (dependency_ids c) [] >>= λ m. ok (from_handles m)

-- The same publication of the same entry.
abbrev pub same_entry : CapabilityHandle → CapabilityHandle → Bool
same_entry a b = Entry.generation a == Entry.generation b && Entry.entry_id a == Entry.entry_id b

-- The loop that compares the snapshot with what is visible now.
unfoldable pub check_unchanged :
    (expected current : ResolvedDependencies) → Ident → List Ident → Result ScopeError (Unit {0})
check_unchanged expected current id [] = ok tt
check_unchanged expected current id (d ∷ ds) = do
  a ← expect (get_handle d expected)
  b ← expect (get_handle d current)
  ensure (same_entry b a) (dependency_changed id d)
  check_unchanged expected current id ds

unfoldable pub check_entry :
    Ident → PublishExpectation → Option CapabilityEntry → Result ScopeError (Unit {0})
check_entry id new_entry none = ok tt
check_entry id new_entry (some e) = err (already_provided id e.generation)
check_entry id (replace_entry expected) none = err (no_local_entry id)
check_entry id (replace_entry expected) (some e) =
    ensure (e.generation == expected) (replacement_conflict id expected e.generation)

unfoldable pub check_expectation :
    Scopes → Scope → Ident → PublishExpectation → Result ScopeError (Unit {0})
check_expectation w s id expectation = do
  ensure (is_open w s.key) closed
  check_entry id expectation (get id (state_at w s.key).entries)

-- The loop over the live descendants.
unfoldable pub check_descendants :
    Scopes → Scope → CapabilityDefinition → List Scope → Result ScopeError (Unit {0})
check_descendants w s c [] = ok tt
check_descendants w s c (d ∷ ds) =
    let rest = check_descendants w s c ds in
    if not (is_open w d.key) || not (candidate_affects w s.key (chain d) c.id)
    then rest
    else admitted (validate_candidate (visible_graph w d) c) >>= λ _. rest

unfoldable pub validate_descendant_admission :
    (ℕ → Bool) → Scopes → Scope → CapabilityDefinition → Result ScopeError (Unit {0})
validate_descendant_admission alive w s c = live_descendants alive w s >>= check_descendants w s c

unfoldable pub next_generation :
    Ident → PublishExpectation → Option CapabilityEntry → Result ScopeError Generation
next_generation id new_entry current = ok first
next_generation id (replace_entry _) current = do
  e ← expect current
  ok_or (checked_next e.generation) (generation_exhausted id)

-- The first part of `publish`: admission, before the factory runs.
unfoldable pub admit :
    Scopes
    → Scope
    → CapabilityDefinition
    → PublishExpectation
    → Result ScopeError ResolvedDependencies
admit w s c expectation = do
  check_expectation w s c.id expectation
  _ ← admitted (validate_candidate (visible_graph w s) c)
  resolve_dependencies w s c

-- The guards of `publish_preconstructed`, and the generation that it publishes.
unfoldable pub check_publication :
    (ℕ → Bool)
    → Scopes
    → Scope
    → CapabilityDefinition
    → PublishExpectation
    → ResolvedDependencies
    → Result ScopeError Generation
check_publication alive w s c expectation dependencies = do
  current ← resolve_dependencies w s c
  check_unchanged dependencies current c.id (dependency_ids c)
  validate_descendant_admission alive w s c
  check_expectation w s c.id expectation
  _ ← admitted (validate_candidate (visible_graph_with_entries w s) c)
  next_generation c.id expectation (get c.id (state_at w s.key).entries)
