-- ===== src/Capability/Entry.antt =====
-- crates/capability-graph/src/runtime.rs: published entries as their readers see them, and errors.
-- The value of an instance (`Arc<dyn Any>`) is left out: nothing here looks at it.
use graph_core.Base.{ℕ, ◌≡◌}
use graph_core.Base.Order.{Ord, ord_by, nat_ord}
use graph_core.Core.Ident.{Text, Ident}
use graph_core.Capability.Definition.{CapabilityDefinition}
use graph_core.Capability.Generation.{Generation}
use graph_core.Capability.Resolver.{CapabilityGraphError}

pub record EntryId : Type 0 where
  pub value : ℕ

pub eq_of_value : (a b : EntryId) → a.value ≡ b.value → a ≡ b
eq_of_value a b e = λ i. record { value = e i }

instance unfoldable pub entry_ord : Ord EntryId
entry_ord = ord_by (λ e. e.value) eq_of_value

-- A handle retains its entry and, through the instance, the handles of its dependencies.
mutual
  pub data CapabilityHandle : Type 0 where
    handle :
        (definition : CapabilityDefinition) (generation : Generation) (entry_id : EntryId)
        (dependencies : ResolvedDependencies)
        → CapabilityHandle

  -- A `BTreeMap` of handles, in ascending key order.
  pub data ResolvedDependencies : Type 0 where
    no_handles : ResolvedDependencies
    handles : (id : Ident) → CapabilityHandle → ResolvedDependencies → ResolvedDependencies

abbrev pub definition : CapabilityHandle → CapabilityDefinition
definition (handle c g e ds) = c

unfoldable pub id : CapabilityHandle → Ident
id h = (definition h).id

unfoldable pub kind : CapabilityHandle → Text
kind h = (definition h).kind

unfoldable pub replay_identity : CapabilityHandle → Text
replay_identity h = (definition h).replay_identity

unfoldable pub generation : CapabilityHandle → Generation
generation (handle c g e ds) = g

unfoldable pub entry_id : CapabilityHandle → EntryId
entry_id (handle c g e ds) = e

unfoldable pub dependencies : CapabilityHandle → ResolvedDependencies
dependencies (handle c g e ds) = ds

pub data ScopeError : Type 0 where
  graph_admission : CapabilityGraphError → ScopeError
  missing_dependency : (capability dependency : Ident) → ScopeError
  construction_failed : (capability : Ident) (reason : Text) → ScopeError
  already_provided : (capability : Ident) (generation : Generation) → ScopeError
  no_local_entry : (capability : Ident) → ScopeError
  replacement_conflict : (capability : Ident) (expected actual : Generation) → ScopeError
  dependency_changed : (capability dependency : Ident) → ScopeError
  generation_exhausted : (capability : Ident) → ScopeError
  closed : ScopeError
