-- ===== src/Workflow/Graph/Replay.antt =====
-- Replaying one record, a longer log, and one completion.
use graph_core.Base.{◌≡◌, refl, true, List, [], ◌∷◌, ◌++◌, some, arith}
use graph_core.Base.Results.{Result, ok, err, panic, out_of_fuel}
use graph_core.Base.Order.{==_iff}
use graph_core.Base.BTreeMap.{get}
use graph_core.Core.Ident.{Ident, ident_ord}
use graph_core.Core.Revision.{Revision, checked_next, revision_ord}
use graph_core.Workflow.Topology.{contains_task, dependencies}
use graph_core.Workflow.Facts.{ExecutionFacts, CompletionRecord, is_completed}
use graph_core.Workflow.Facts
use graph_core.Workflow.Mutation.{
  WorkflowMutation, add_task, add_dependency, MutationBatch, from_mutations, WorkflowGraphError,
  WorkflowMutationRecord,
}
use graph_core.Workflow.Graph.{
  WorkflowGraph, insert_edge, check_cycle, apply_mutation, apply_mutations, prepare, apply_batch,
  check_completion, complete, replay_from, complete_all,
}

-- The graph as it stands before any completion.
abbrev pub without_facts : WorkflowGraph → WorkflowGraph
without_facts g = record g { facts = Facts.empty }

-- The guard on completed tasks is all that a mutation reads of the facts.
apply_mutation-without_facts :
    (g g' : WorkflowGraph) (m : WorkflowMutation)
    → apply_mutation g m ≡ (g', ok tt)
    → apply_mutation (without_facts g) m ≡ (without_facts g', ok tt)
unfolding apply_mutation insert_edge check_cycle is_completed get
apply_mutation-without_facts g g' (add_task x) h = ground arith
apply_mutation-without_facts g g' (add_dependency a b) h = ground arith

accepted :
    (g : WorkflowGraph) (m : WorkflowMutation) (ms : List WorkflowMutation) (k : WorkflowGraph)
    → apply_mutations g (m ∷ ms) ≡ ok k
    → (g' : WorkflowGraph) × (apply_mutation g m ≡ (g', ok tt)) × (apply_mutations g' ms ≡ ok k)
unfolding apply_mutations
accepted g m ms k h = by_result (apply_mutation g m) refl
  where
    by_result :
        (p : WorkflowGraph × Result WorkflowGraphError (Unit {0}))
        → apply_mutation g m ≡ p
        → (g' : WorkflowGraph) × (apply_mutation g m ≡ (g', ok tt)) × (apply_mutations g' ms ≡ ok k)
    by_result (g', ok tt) e = (g', e, rw (e, apply_mutations) at h)
    by_result (g', err x) e = absurd (ground arith)
    by_result (g', panic) e = absurd (ground arith)
    by_result (g', out_of_fuel) e = absurd (ground arith)

apply_mutations-without_facts :
    (g k : WorkflowGraph) (ms : List WorkflowMutation)
    → apply_mutations g ms ≡ ok k
    → apply_mutations (without_facts g) ms ≡ ok (without_facts k)
unfolding apply_mutations
apply_mutations-without_facts g k [] h = ground arith
apply_mutations-without_facts g k (m ∷ ms) h =
    let (g', first, rest) = accepted g m ms k h in
    rw (apply_mutation-without_facts g g' m first, apply_mutations)
      (apply_mutations-without_facts g' k ms rest)

pub prepare-without_facts :
    (g k : WorkflowGraph) (expected : Revision) (b : MutationBatch) (r : WorkflowMutationRecord)
    → prepare g expected b ≡ ok (k, r)
    → prepare (without_facts g) expected b ≡ ok (without_facts k, r)
unfolding prepare
prepare-without_facts g k expected b r h = by_result (apply_mutations g b.mutations) refl
  where
    by_result :
        (o : Result WorkflowGraphError WorkflowGraph)
        → apply_mutations g b.mutations ≡ o
        → prepare (without_facts g) expected b ≡ ok (without_facts k, r)
    by_result (ok c) e = ground (arith, e, apply_mutations-without_facts g c b.mutations e)
    by_result (err x) e = absurd (ground arith)
    by_result panic e = absurd (ground arith)
    by_result out_of_fuel e = absurd (ground arith)

-- A record whose revisions fit is replayed to what its batch leads to.
pub replay_one :
    (g c : WorkflowGraph) (r : WorkflowMutationRecord)
    → r.base_revision ≡ g.topology_revision
    → checked_next g.topology_revision ≡ some c.topology_revision
    → r.resulting_revision ≡ c.topology_revision
    → prepare g r.base_revision (from_mutations r.mutations) ≡ ok (c, r)
    → replay_from g (r ∷ []) ≡ ok c
unfolding replay_from apply_batch
replay_one g c r base next resulting e = ground (
  arith,
  ==_iff r.base_revision g.topology_revision,
  ==_iff r.resulting_revision c.topology_revision,
)

pub replay_from-append :
    (g h : WorkflowGraph) (rs ss : List WorkflowMutationRecord)
    → replay_from g rs ≡ ok h
    → replay_from g (rs ++ ss) ≡ replay_from h ss
unfolding replay_from
replay_from-append g h [] ss e = ground arith
replay_from-append g h (r ∷ rs) ss e = ground (
  arith,
  replay_from-append (apply_batch g r.base_revision (from_mutations r.mutations)).0 h rs ss,
)

pub complete_all-append :
    (g h : WorkflowGraph) (cs ds : List CompletionRecord)
    → complete_all g cs ≡ ok h
    → complete_all g (cs ++ ds) ≡ complete_all h ds
unfolding complete_all
complete_all-append g h [] ds e = ground arith
complete_all-append g h (c ∷ cs) ds e =
    ground (arith, complete_all-append (complete g c.task_id).0 h cs ds)

-- A completion reads no more of the topology than whether the task is there and what it needs.
pub complete_onto :
    (h k h' : WorkflowGraph) (id : Ident) (c : CompletionRecord)
    → (contains_task h.topology id ≡ true → contains_task k.topology id ≡ true)
    → dependencies k.topology id ≡ dependencies h.topology id
    → complete h id ≡ (h', ok c)
    → (complete (record k { facts = h.facts }) id ≡ (record k { facts = h'.facts }, ok c))
      × (h'.topology ≡ h.topology)
unfolding complete check_completion
complete_onto h k h' id c more same e = ground arith
