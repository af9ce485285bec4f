-- ===== src/Workflow/Graph/Batch.antt =====
-- `apply_batch`: one revision and one record for an accepted batch, nothing for a refused one.
use graph_core.Base.{◌≡◌, refl, ap, inl, inr, [], ◌∷◌, ◌++◌, some, Bool-cases, Option-cases}
use graph_core.Base.Results.{Result, ok, err, panic, out_of_fuel, ◌>>=◌, ◌>>◌}
use graph_core.Base.Order.{◌==◌, ==_iff}
use graph_core.Core.Revision.{Revision, checked_next, revision_ord}
use graph_core.Workflow.Topology.{WorkflowTopology}
use graph_core.Workflow.Mutation.{
  MutationBatch, WorkflowMutationRecord, WorkflowGraphError, is_empty_batch,
}
use graph_core.Workflow.Cycles.Verdict.{cycle_path_decides}
use graph_core.Workflow.Graph.{WorkflowGraph, apply_mutations, reject_cycle, prepare, apply_batch}
use graph_core.Workflow.Graph.Mutations.{IsDag, Grows, Candidate, apply_mutations-Candidate}

pub reject_cycle_of_IsDag : (t : WorkflowTopology) → IsDag t → reject_cycle t ≡ ok tt
unfolding reject_cycle
reject_cycle_of_IsDag t v = elim (cycle_path_decides t v.closed) [
  | inl (e, _) ↦ rw (e, reject_cycle)
  | inr (_, _, _, n) ↦ absurd (n v.acyclic)
]

-- The record says what the batch did, and the graph differs by the batch, one revision and it.
pub record Committed (g : WorkflowGraph) (expected : Revision) (b : MutationBatch)
    (g' : WorkflowGraph) (r : WorkflowMutationRecord) : Type 0 where
  pub was_current : expected ≡ g.topology_revision
  pub next_revision : checked_next g.topology_revision ≡ some g'.topology_revision
  pub base : r.base_revision ≡ g.topology_revision
  pub resulting : r.resulting_revision ≡ g'.topology_revision
  pub mutations : r.mutations ≡ b.mutations
  pub log : g'.mutation_log ≡ g.mutation_log ++ r ∷ []
  pub facts : g'.facts ≡ g.facts
  pub grows : Grows g.facts g.topology g'.topology
  pub dag : IsDag g'.topology
  pub applied :
      (c : WorkflowGraph) × (apply_mutations g b.mutations ≡ ok c) × (g'.topology ≡ c.topology)

abbrev Prepared :
    WorkflowGraph
    → Revision
    → MutationBatch
    → Result WorkflowGraphError (WorkflowGraph × WorkflowMutationRecord)
    → Type 0
Prepared g expected b (ok (g', r)) = Committed g expected b g' r
Prepared g expected b (err e) = Unit
Prepared g expected b panic = ⊥
Prepared g expected b out_of_fuel = ⊥

module _ (g : WorkflowGraph) (expected : Revision) (b : MutationBatch) (next : Revision) where
  abbrev entry : WorkflowMutationRecord
  entry = record {
    base_revision = g.topology_revision;
    resulting_revision = next;
    mutations = b.mutations;
  }

  -- The last part of `prepare`, from the candidate on.
  abbrev finish : WorkflowGraph → Result WorkflowGraphError (WorkflowGraph × WorkflowMutationRecord)
  finish c = do
    reject_cycle c.topology
    ok (record c { topology_revision = next; mutation_log = c.mutation_log ++ entry ∷ [] }, entry)

  finish-Prepared :
      (r : Result WorkflowGraphError WorkflowGraph)
      → expected ≡ g.topology_revision
      → checked_next g.topology_revision ≡ some next
      → Candidate g r
      → apply_mutations g b.mutations ≡ r
      → Prepared g expected b (r >>= finish)
  finish-Prepared (ok c) was e k q = rw (reject_cycle_of_IsDag c.topology k.dag) (record {
    was_current = was;
    next_revision = e;
    base = refl;
    resulting = refl;
    mutations = refl;
    log = ap (λ l. l ++ entry ∷ []) k.log;
    facts = k.facts;
    grows = k.grows;
    dag = k.dag;
    applied = (c, q, refl);
  })
  finish-Prepared (err e) was h k q = tt
  finish-Prepared panic was h k q = k
  finish-Prepared out_of_fuel was h k q = k

prepare-Prepared :
    (g : WorkflowGraph) (expected : Revision) (b : MutationBatch)
    → IsDag g.topology
    → Prepared g expected b (prepare g expected b)
unfolding prepare
prepare-Prepared g expected b v = elim (Bool-cases (expected == g.topology_revision)) [
  | inr h ↦ rw (h, prepare) tt
  | inl h ↦ elim (Bool-cases (is_empty_batch b)) [
    | inl k ↦ rw (h, k, prepare) tt
    | inr k ↦ elim (Option-cases (checked_next g.topology_revision)) [
      | inl e ↦ rw (h, k, e, prepare) tt
      | inr (next, e) ↦
          rw (h, k, e, prepare)
            (finish-Prepared g expected b next (apply_mutations g b.mutations)
              ((==_iff expected g.topology_revision).0 h) e
              (apply_mutations-Candidate g b.mutations v) refl)
    ]
  ]
]

abbrev pub Batched :
    WorkflowGraph
    → Revision
    → MutationBatch
    → WorkflowGraph × Result WorkflowGraphError WorkflowMutationRecord
    → Type 0
Batched g expected b (g', ok r) = Committed g expected b g' r
Batched g expected b (g', err e) = g' ≡ g
Batched g expected b (g', panic) = ⊥
Batched g expected b (g', out_of_fuel) = ⊥

-- On a DAG `apply_batch` returns. If it accepts, the expected revision was the current one, the
-- revision advances by one, one record of the batch is logged, the facts stay, the topology is the
-- one that the mutations lead to in order, tasks and edges only come in, completed tasks keep their
-- prerequisites, and the topology is a DAG again. If it returns an error, the graph is unchanged.
pub apply_batch-Batched :
    (g : WorkflowGraph) (expected : Revision) (b : MutationBatch)
    → IsDag g.topology
    → Batched g expected b (apply_batch g expected b)
unfolding apply_batch
apply_batch-Batched g expected b v =
    by_result (prepare g expected b) refl (prepare-Prepared g expected b v)
  where
    by_result :
        (r : Result WorkflowGraphError (WorkflowGraph × WorkflowMutationRecord))
        → prepare g expected b ≡ r
        → Prepared g expected b r
        → Batched g expected b (apply_batch g expected b)
    by_result (ok (c, r)) e p = rw (e, apply_batch) p
    by_result (err x) e p = rw (e, apply_batch) refl
    by_result panic e p = absurd p
    by_result out_of_fuel e p = absurd p
