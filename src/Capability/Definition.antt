-- ===== src/Capability/Definition.antt =====
-- crates/capability-graph/src/definition.rs: capability definitions and their dependencies.
use graph_core.Base.{◌≡◌, List, [], ◌∷◌, ◌++◌, map}
use graph_core.Base.Order.{Ord, ord_by}
use graph_core.Base.BTreeMap.{BTreeSet, keys, insert}
use graph_core.Core.Ident.{Text, Ident, ident_ord}

pub record Capability : Type 0 where
  pub id : Ident
  pub kind : Text

pub record Dependency : Type 0 where
  pub id : Ident

pub eq_of_id : (a b : Dependency) → a.id ≡ b.id → a ≡ b
eq_of_id a b e = λ i. record { id = e i }

-- The derived `Ord`.
instance unfoldable pub dependency_ord : Ord Dependency
dependency_ord = ord_by (λ d. d.id) eq_of_id

pub record CapabilityDefinition : Type 0 where
  pub id : Ident
  pub kind : Text
  pub replay_identity : Text
  pub dependencies : BTreeSet Dependency

-- `format!("{}:{kind}", id)`.
abbrev pub default_replay_identity : Ident → Text → Text
default_replay_identity id kind = id.value ++ 58 ∷ kind

unfoldable pub new : Ident → Text → CapabilityDefinition
new id kind = record {
  id = id;
  kind = kind;
  replay_identity = default_replay_identity id kind;
  dependencies = [];
}

unfoldable pub with_replay_identity : CapabilityDefinition → Text → CapabilityDefinition
with_replay_identity c replay_identity = record c { replay_identity = replay_identity }

unfoldable pub add_dependency : CapabilityDefinition → Ident → CapabilityDefinition
add_dependency c dependency = record c {
  dependencies = insert (record { id = dependency }) tt c.dependencies;
}

unfoldable pub depends_on : CapabilityDefinition → Ident → CapabilityDefinition
depends_on c dependency = record c {
  dependencies = insert (record { id = dependency }) tt c.dependencies;
}

unfoldable pub from_capability : Capability → CapabilityDefinition
unfolding new
from_capability c = new c.id c.kind

-- The identifiers of the direct dependencies, in order.
abbrev pub dependency_ids : CapabilityDefinition → List Ident
dependency_ids c = map (λ (d : Dependency). d.id) (keys c.dependencies)
