-- ===== src/Capability/Resolver/Admission.antt =====
-- The admission of a candidate to the graph.
use graph_core.Base.{◌≡◌, refl, ◌⊎◌, inl, inr, arith}
use graph_core.Base.Results.{ok, err}
use graph_core.Base.Order.{==_refl}
use graph_core.Base.BTreeMap.{get-insert}
use graph_core.Core.Ident.{ident_ord}
use graph_core.Capability.Definition.{CapabilityDefinition, dependency_ord, dependency_ids}
use graph_core.Capability.Resolver.{
  CapabilityGraphError, CapabilityGraph, requirements, insert_definition, validate_candidate,
  ValidatedCapabilityDefinition,
}
use graph_core.Capability.Resolver.Invariant.{Fault}
use graph_core.Capability.Resolver.Outcome.{Resolves, resolve_decides}
use graph_core.Capability.Resolver.Registration.{requirements_of}

-- A candidate is admitted exactly when the graph resolves with it in place of an earlier definition
-- of its identifier; the proof object then holds the candidate and an order for that graph.
pub validate_candidate_lem :
    (g : CapabilityGraph) (candidate : CapabilityDefinition)
    → ((v : ValidatedCapabilityDefinition) × (validate_candidate g candidate ≡ ok v)
        × (v.definition ≡ candidate)
        × Resolves (insert_definition g candidate).0 v.resolution
        × (requirements (insert_definition g candidate).0 candidate.id ≡ dependency_ids candidate))
      ⊎ ((e : CapabilityGraphError) × (validate_candidate g candidate ≡ err e)
          × Fault (insert_definition g candidate).0 e)
unfolding validate_candidate insert_definition
validate_candidate_lem g candidate = elim (resolve_decides (insert_definition g candidate).0) [
  | inl (r, e, h) ↦ inl (
    record { definition = candidate; resolution = r },
    rw e refl,
    refl,
    h,
    requirements_of (insert_definition g candidate).0 candidate.id candidate (
        ground (
          arith,
          get-insert candidate.id candidate.id candidate g.definitions,
          ==_refl candidate.id,
        )),
  )
  | inr (f, e, h) ↦ inr (f, rw e refl, h)
]
