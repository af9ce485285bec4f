-- ===== src/Capability/Tests.antt =====
-- Runs of the resolver on concrete graphs, and the theorems at concrete inputs.
use graph_core.Base.{◌≡◌, refl, ◌⊎◌, ◌↔◌, [], ◌∷◌, Memᴰ, true}
use graph_core.Base.Results.{ok, err}
use graph_core.Base.BTreeMap.{contains_key, get, insert}
use graph_core.Base.Walks.{IsAcyclic, from_position}
use graph_core.Core.Ident.{Ident, ident_ord}
use graph_core.Base.Order.{ord_by, nat_ord, list_ord, lex}
use graph_core.Capability.Definition
use graph_core.Capability.Definition.{CapabilityDefinition, dependency_ids, dependency_ord}
use graph_core.Capability.Resolver.{
  CapabilityGraph, CapabilityGraphError, missing_dependency, cycle, insert_definition, requirements,
  from_definitions, close_cycle, visit_all, visit, visit_keys, ResolvedCapabilityGraph,
  ValidatedCapabilityDefinition, resolve, teardown_order, validate_candidate,
}
use graph_core.Capability.Resolver.Invariant.{Fault}
use graph_core.Capability.Resolver.Outcome.{Resolves, resolve_decides}
use graph_core.Capability.Resolver.Acceptance.{
  IsClosed, Dismantles, resolve_iff, teardown_order-Dismantles,
}
use graph_core.Capability.Resolver.Registration.{Required, require_lem}
use graph_core.Capability.Resolver.Admission.{validate_candidate_lem}

abbrev api : Ident
api = record { value = 97 ∷ [] }

abbrev db : Ident
db = record { value = 98 ∷ [] }

abbrev log : Ident
log = record { value = 99 ∷ [] }

abbrev api_definition : CapabilityDefinition
unfolding Definition.new Definition.depends_on insert dependency_ord ident_ord ord_by list_ord lex
    nat_ord
api_definition = Definition.depends_on (Definition.depends_on (Definition.new api []) log) db

abbrev db_definition : CapabilityDefinition
unfolding Definition.new Definition.depends_on insert
db_definition = Definition.depends_on (Definition.new db []) log

abbrev log_definition : CapabilityDefinition
unfolding Definition.new
log_definition = Definition.new log []

abbrev services : CapabilityGraph
unfolding from_definitions insert_definition insert ident_ord ord_by list_ord lex nat_ord
services = from_definitions (api_definition ∷ log_definition ∷ db_definition ∷ [])

abbrev order : ResolvedCapabilityGraph
order = record { construction_order = log ∷ db ∷ api ∷ [] }

resolve-services : resolve services ≡ ok order
unfolding resolve visit_keys visit visit_all close_cycle from_position get insert ident_ord ord_by
    list_ord lex nat_ord dependency_ord services log_definition api_definition db_definition
resolve-services = refl

abbrev knot : CapabilityGraph
knot = record {
  definitions =
      (api, Definition.depends_on (Definition.new api []) db)
      ∷ (db, Definition.depends_on (Definition.new db []) api)
      ∷ [];
}

knot_cycle : resolve knot ≡ err (cycle (api ∷ db ∷ api ∷ []))
unfolding resolve visit_keys visit visit_all close_cycle from_position get insert ident_ord ord_by
    list_ord lex nat_ord dependency_ord Definition.new Definition.depends_on
knot_cycle = refl

-- A graph that requires what nobody registers.
abbrev dangling : CapabilityGraph
dangling = record { definitions = (api, Definition.depends_on (Definition.new api []) db) ∷ [] }

dangling_missing : resolve dangling ≡ err (missing_dependency api db)
unfolding resolve visit_keys visit visit_all close_cycle from_position get insert ident_ord ord_by
    list_ord lex nat_ord dependency_ord Definition.new Definition.depends_on
dangling_missing = refl

resolve_decides_example :
    ((r : ResolvedCapabilityGraph) × (resolve services ≡ ok r) × Resolves services r)
    ⊎ ((e : CapabilityGraphError) × (resolve services ≡ err e) × Fault services e)
resolve_decides_example = resolve_decides services

resolve_iff_example :
    ((r : ResolvedCapabilityGraph) × (resolve services ≡ ok r))
    ↔ (IsClosed services × IsAcyclic (requirements services))
resolve_iff_example = resolve_iff services

teardown_order-Dismantles_example :
    Dismantles (requirements services) (teardown_order order)
    × ((v : Ident) → Memᴰ v (teardown_order order) ↔ (contains_key v services.definitions ≡ true))
teardown_order-Dismantles_example = teardown_order-Dismantles services order resolve-services

require_lem_example : Required services log api
require_lem_example = require_lem services log api

validate_candidate_lem_example :
    ((v : ValidatedCapabilityDefinition) × (validate_candidate services log_definition ≡ ok v)
      × (v.definition ≡ log_definition)
      × Resolves (insert_definition services log_definition).0 v.resolution
      × (requirements (insert_definition services log_definition).0 log_definition.id
          ≡ dependency_ids log_definition))
    ⊎ ((e : CapabilityGraphError) × (validate_candidate services log_definition ≡ err e)
        × Fault (insert_definition services log_definition).0 e)
validate_candidate_lem_example = validate_candidate_lem services log_definition
