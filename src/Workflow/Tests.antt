-- ===== src/Workflow/Tests.antt =====
-- Runs of crates/workflow-graph/src/lib.rs, and the properties at concrete inputs.
use graph_core.Base.{◌≡◌, refl, ◌↔◌, ◌⊎◌, List, [], ◌∷◌, Memᴰ, filter, all, drop_last}
use graph_core.Base.Results.{ok, err}
use graph_core.Base.Order.{nat_ord, list_ord, ord_by, lex}
use graph_core.Base.BTreeMap.{get, insert, remove}
use graph_core.Core.Ident.{Ident, ident_ord}
use graph_core.Core.Revision.{Revision, revision_ord, checked_next}
use graph_core.Core.Revision
use graph_core.Workflow.Topology.{
  contains_task, dependencies, task_ids, close_cycle, visit_all, visit, visit_tasks, cycle_path,
}
use graph_core.Workflow.Facts.{CompletionRecord, is_completed}
use graph_core.Workflow.Mutation.{add_task, add_dependency, MutationBatch, cycle, is_empty_batch}
use graph_core.Workflow.Cycles.Walks.{IsCycle, IsAcyclic}
use graph_core.Workflow.Cycles.Verdict.{cycle_path_decides}
use graph_core.Workflow.Graph.{
  WorkflowGraph, default, check_prerequisites, check_completion, complete, prerequisites_completed,
  ready_tasks, roll_back, insert_edge, check_cycle, apply_mutation, apply_mutations, reject_cycle,
  prepare, apply_batch, replay_with_facts,
}
use graph_core.Workflow.Graph.Guards.{Guarded, apply_mutation-Guarded}
use graph_core.Workflow.Graph.Canonical.{topology_is_canonical}
use graph_core.Workflow.Cycles.Walks.{Edge}
use graph_core.Base.Walks.{from_position}
use graph_core.Workflow.Topology.{task}
use graph_core.Base.{ap, sym, subst}
use graph_core.Workflow.Graph.Batch.{Batched, apply_batch-Batched}
use graph_core.Workflow.Graph.Completion.{Completed, complete_lem, ready_iff_complete}
use graph_core.Workflow.Graph.Reach.{
  Reachable, start, batch, completion, IsValid, Reachable-IsValid,
}
use graph_core.Workflow.Graph.Rebuild.{replay_with_facts_rebuilds}

abbrev plan : Ident
plan = record { value = 0x70 ∷ [] }

abbrev research : Ident
research = record { value = 0x72 ∷ [] }

abbrev plan_then_research : MutationBatch
plan_then_research = record {
  mutations =
      add_task (record { id = plan; label = [] })
      ∷ add_task (record { id = research; label = [] })
      ∷ add_dependency research plan
      ∷ [];
}

-- Two tasks in order, of which the first is completed.
sample : WorkflowGraph
sample = (complete (apply_batch default Revision.zero plan_then_research).0 plan).0

sample-Reachable : Reachable sample
unfolding sample
sample-Reachable = completion plan (batch Revision.zero plan_then_research start)

ready_after_plan : ready_tasks sample ≡ research ∷ []
unfolding sample default apply_batch prepare apply_mutations apply_mutation contains_task
    is_completed get insert ident_ord ord_by list_ord nat_ord lex insert_edge check_cycle cycle_path
    task_ids visit_tasks visit visit_all dependencies drop_last reject_cycle revision_ord
    is_empty_batch checked_next complete check_completion check_prerequisites ready_tasks filter
    prerequisites_completed all
ready_after_plan = refl

back_edge_is_a_cycle :
    (apply_batch
      (apply_batch default Revision.zero plan_then_research).0
      (record { value = 1 })
      (record { mutations = add_dependency plan research ∷ [] })).1
    ≡ err (cycle (plan ∷ research ∷ plan ∷ []))
unfolding default apply_batch prepare apply_mutations apply_mutation contains_task is_completed get
    insert ident_ord ord_by list_ord nat_ord lex insert_edge check_cycle cycle_path task_ids
    visit_tasks visit visit_all dependencies drop_last reject_cycle revision_ord is_empty_batch
    checked_next from_position close_cycle roll_back remove
back_edge_is_a_cycle = refl

replay_with_facts_rebuilds_example :
    replay_with_facts sample.mutation_log sample.facts.completion_log ≡ ok sample
replay_with_facts_rebuilds_example = replay_with_facts_rebuilds sample-Reachable

cycle_path_decides_example :
    ((cycle_path sample.topology ≡ ok tt) × IsAcyclic sample.topology)
    ⊎ ((path : List Ident) × (cycle_path sample.topology ≡ err path)
        × IsCycle sample.topology path
        × ¬ IsAcyclic sample.topology)
cycle_path_decides_example =
    cycle_path_decides sample.topology (Reachable-IsValid sample-Reachable).dag.closed

apply_batch-Batched_example :
    Batched sample
      (record { value = 1 })
      plan_then_research
      (apply_batch sample (record { value = 1 }) plan_then_research)
apply_batch-Batched_example =
    apply_batch-Batched sample (record { value = 1 }) plan_then_research
      (Reachable-IsValid sample-Reachable).dag

Reachable-IsValid_example : IsValid sample
Reachable-IsValid_example = Reachable-IsValid sample-Reachable

complete_lem_example : Completed sample research (complete sample research)
complete_lem_example = complete_lem sample research

ready_iff_complete_example :
    Memᴰ research (ready_tasks sample)
    ↔ ((c : CompletionRecord) × ((complete sample research).1 ≡ ok c))
ready_iff_complete_example = ready_iff_complete sample research

apply_mutation-Guarded_example :
    Guarded sample
      (add_dependency plan research)
      (apply_mutation sample (add_dependency plan research))
apply_mutation-Guarded_example =
    apply_mutation-Guarded sample (add_dependency plan research)
      (Reachable-IsValid sample-Reachable).dag

-- The same tasks, in the other order.
reordered : WorkflowGraph
reordered =
    (apply_batch default Revision.zero (record {
      mutations =
          add_task (record { id = research; label = [] })
          ∷ add_task (record { id = plan; label = [] })
          ∷ add_dependency research plan
          ∷ [];
    })).0

reordered-Reachable : Reachable reordered
unfolding reordered
reordered-Reachable = batch Revision.zero _ start

same_topology : sample.topology ≡ reordered.topology
unfolding sample reordered default apply_batch prepare apply_mutations apply_mutation contains_task
    is_completed get insert ident_ord ord_by list_ord nat_ord lex insert_edge check_cycle cycle_path
    task_ids visit_tasks visit visit_all dependencies drop_last reject_cycle revision_ord
    is_empty_batch checked_next complete check_completion check_prerequisites
same_topology = refl

topology_is_canonical_example :
    (sample.topology ≡ reordered.topology)
    × (sample.facts ≡ reordered.facts → ready_tasks sample ≡ ready_tasks reordered)
topology_is_canonical_example =
    topology_is_canonical sample-Reachable reordered-Reachable
      (λ v. ap (λ t. task t v) same_topology)
      (λ v d. (subst (λ t. Edge t v d) same_topology, subst (λ t. Edge t v d) (sym same_topology)))
