-- ===== src/Workflow/Graph/Guards.antt =====
-- When a mutation is accepted, and what each refusal is about.
use graph_core.Base.{
  ◌≡◌, refl, ◌⊎◌, ◌↔◌, inl, inr, true, false, List, [], arith, Bool-cases, unwrap_or,
}
use graph_core.Base.Results.{Result, ok, err, panic, out_of_fuel}
use graph_core.Base.BTreeMap.{get, insert, contains_key, contains_key_iff}
use graph_core.Core.Ident.{Ident, ident_ord}
use graph_core.Workflow.Topology.{contains_task, dependencies, cycle_path}
use graph_core.Workflow.Facts.{is_completed}
use graph_core.Workflow.Mutation.{
  WorkflowMutation, add_task, add_dependency, WorkflowGraphError, unknown_task, duplicate_task,
  duplicate_dependency, cycle, completed_task_mutation,
}
use graph_core.Workflow.Cycles.Walks.{Edge, IsCycle, IsAcyclic}
use graph_core.Base.Walks.{not-IsCycle}
use graph_core.Workflow.Cycles.Verdict.{Verdict, cycle_path-Verdict}
use graph_core.Workflow.Graph.{WorkflowGraph, with_tasks, insert_edge, check_cycle, apply_mutation}
use graph_core.Workflow.Graph.Mutations.{IsDag, insert_edge-IsClosed}

abbrev pub MayApply : WorkflowGraph → WorkflowMutation → Type 0
MayApply g (add_task x) = contains_task g.topology x.id ≡ false
MayApply g (add_dependency a b) =
    (contains_task g.topology a ≡ true)
    × (contains_task g.topology b ≡ true)
    × (is_completed g.facts a ≡ false)
    × ¬ Edge g.topology a b
    × IsAcyclic (insert_edge g a b).topology

abbrev pub changed : WorkflowGraph → WorkflowMutation → WorkflowGraph
changed g (add_task x) = with_tasks g (insert x.id x g.topology.tasks)
changed g (add_dependency a b) = insert_edge g a b

abbrev pub Refusal : WorkflowGraph → WorkflowMutation → WorkflowGraphError → Type 0
Refusal g (add_task x) (duplicate_task id) = (id ≡ x.id) × (contains_task g.topology id ≡ true)
Refusal g (add_dependency a b) (unknown_task id) =
    ((id ≡ a) ⊎ (id ≡ b)) × (contains_task g.topology id ≡ false)
Refusal g (add_dependency a b) (completed_task_mutation id) =
    (id ≡ a) × (is_completed g.facts id ≡ true)
Refusal g (add_dependency a b) (duplicate_dependency task dep) =
    (task ≡ a) × (dep ≡ b) × Edge g.topology task dep
Refusal g (add_dependency a b) (cycle path) = IsCycle (insert_edge g a b).topology path
Refusal g _ _ = ⊥

abbrev pub Guarded :
    WorkflowGraph → WorkflowMutation → WorkflowGraph × Result WorkflowGraphError (Unit {0}) → Type 0
Guarded g m (g', ok _) = MayApply g m × (g' ≡ changed g m)
Guarded g m (g', err e) = Refusal g m e × ¬ MayApply g m
Guarded g m (g', panic) = ⊥
Guarded g m (g', out_of_fuel) = ⊥

Edge-iff :
    (g : WorkflowGraph) (a b : Ident)
    → (contains_key b (unwrap_or [] (get a g.topology.dependencies)) ≡ true) ↔ Edge g.topology a b
unfolding dependencies
Edge-iff g a b = contains_key_iff b (unwrap_or [] (get a g.topology.dependencies))

check_cycle-Guarded :
    (g : WorkflowGraph) (a b : Ident) (r : Result (List Ident) (Unit {0}))
    → cycle_path (insert_edge g a b).topology ≡ r
    → Verdict (insert_edge g a b).topology r
    → contains_task g.topology a ≡ true
    → contains_task g.topology b ≡ true
    → is_completed g.facts a ≡ false
    → ¬ Edge g.topology a b
    → Guarded g (add_dependency a b) (check_cycle (insert_edge g a b) a b)
unfolding check_cycle
check_cycle-Guarded g a b (ok _) e v ha hb open_ n =
    rw (e, check_cycle) ((ha, hb, open_, n, v), refl)
check_cycle-Guarded g a b (err path) e v ha hb open_ n =
    rw (e, check_cycle) (v, λ (_, _, _, _, acyclic). not-IsCycle _ acyclic path v)
check_cycle-Guarded g a b panic e v ha hb open_ n = absurd v
check_cycle-Guarded g a b out_of_fuel e v ha hb open_ n = absurd v

-- On a DAG `apply_mutation` returns. A task is added if its identifier is new. An edge is added if
-- both its tasks are known, the task is not completed, the edge is new and the topology with it has
-- no cycle. Otherwise the error names a guard that failed: the duplicate or unknown task, the
-- completed task, the duplicate edge, or a cycle that the edge would close.
pub apply_mutation-Guarded :
    (g : WorkflowGraph) (m : WorkflowMutation) → IsDag g.topology → Guarded g m (apply_mutation g m)
unfolding apply_mutation
apply_mutation-Guarded g (add_task x) v = elim (Bool-cases (contains_task g.topology x.id)) [
  | inl h ↦ rw (h, apply_mutation) ((refl, h), λ q. ground arith)
  | inr h ↦ rw (h, apply_mutation) (h, refl)
]
apply_mutation-Guarded g (add_dependency a b) v = elim (Bool-cases (contains_task g.topology a)) [
  | inr h ↦ rw (h, apply_mutation) ((inl refl, h), λ q. ground (arith, q.0))
  | inl ha ↦ elim (Bool-cases (contains_task g.topology b)) [
    | inr h ↦ rw (ha, h, apply_mutation) ((inr refl, h), λ q. ground (arith, q.1))
    | inl hb ↦ elim (Bool-cases (is_completed g.facts a)) [
      | inl h ↦ rw (ha, hb, h, apply_mutation) ((refl, h), λ q. ground (arith, q.2))
      | inr open_ ↦
          elim (Bool-cases (contains_key b (unwrap_or [] (get a g.topology.dependencies)))) [
            | inl h ↦
                rw (ha, hb, open_, h, apply_mutation)
                  ((refl, refl, (Edge-iff g a b).0 h), λ q. q.3 ((Edge-iff g a b).0 h))
            | inr h ↦
                rw (ha, hb, open_, h, apply_mutation)
                  (check_cycle-Guarded g a b (cycle_path (insert_edge g a b).topology) refl
                    (cycle_path-Verdict (insert_edge g a b).topology
                      (insert_edge-IsClosed g a b v.closed ha hb))
                    ha hb open_ (λ q. ground (arith, (Edge-iff g a b).1 q)))
          ]
    ]
  ]
]
