-- ===== src/Workflow/Graph/Edges.antt =====
-- What a topology holds after a task or an edge is inserted.
use graph_core.Base.{
  ◌≡◌, refl, subst, ◌↔◌, ◌⊎◌, inl, inr, true, false, [], some, Memᴰ, arith, Bool-cases, unwrap_or,
  if◌then◌else◌,
}
use graph_core.Base.Order.{◌==◌, ==_iff}
use graph_core.Base.BTreeMap.{keys, get, insert, get-insert, mem_keys-insert, contains_key_iff}
use graph_core.Core.Ident.{Ident, ident_ord}
use graph_core.Workflow.Topology.{
  Task, WorkflowTopology, task, task_ids, contains_task, dependencies,
}
use graph_core.Workflow.Cycles.Walks.{Edge}
use graph_core.Workflow.Graph.{WorkflowGraph, with_tasks, insert_edge}

pub contains_task_iff :
    (t : WorkflowTopology) (v : Ident) → (contains_task t v ≡ true) ↔ Memᴰ v (task_ids t)
unfolding contains_task task_ids
contains_task_iff t v = contains_key_iff v t.tasks

-- Nobody but the owner of the new edge gets other prerequisites.
pub dependencies-insert_edge_ne :
    (g : WorkflowGraph) (a b v : Ident)
    → (a == v) ≡ false
    → dependencies (insert_edge g a b).topology v ≡ dependencies g.topology v
unfolding dependencies insert_edge
dependencies-insert_edge_ne g a b v h =
    let ds = g.topology.dependencies in
    ground (arith, get-insert v a (insert b tt (unwrap_or [] (get a ds))) ds)

dependencies-insert_edge_self :
    (g : WorkflowGraph) (a b : Ident)
    → dependencies (insert_edge g a b).topology a
      ≡ keys (insert b tt (unwrap_or [] (get a g.topology.dependencies)))
unfolding dependencies insert_edge
dependencies-insert_edge_self g a b =
    let ds = g.topology.dependencies in
    ground (arith, get-insert a a (insert b tt (unwrap_or [] (get a ds))) ds, ==_iff a a)

-- The edges are the old ones and the new one.
pub Edge-insert_edge :
    (g : WorkflowGraph) (a b v d : Ident)
    → Edge (insert_edge g a b).topology v d ↔ ((v ≡ a) × (d ≡ b) ⊎ Edge g.topology v d)
unfolding dependencies
Edge-insert_edge g a b v d = elim (Bool-cases (a == v)) [
  | inl h ↦
      let e = (==_iff a v).0 h in
      let old = unwrap_or [] (get a g.topology.dependencies) in
      let mem = mem_keys-insert d b tt old in
      subst
        (λ z.
          Memᴰ d (dependencies (insert_edge g a b).topology z)
          ↔ ((z ≡ a) × (d ≡ b) ⊎ Memᴰ d (dependencies g.topology z)))
        e
        (rw (dependencies-insert_edge_self g a b) (
          λ m. elim (mem.0 m) [ inl p ↦ inl (refl, p) | inr q ↦ inr q ],
          λ s. mem.1 (elim s [ inl p ↦ inl p.1 | inr q ↦ inr q ]),
        ))
  | inr h ↦
      rw (dependencies-insert_edge_ne g a b v h)
        (inr, λ s. elim s [ inl p ↦ absurd (ground (arith, ==_iff a v)) | inr q ↦ q ])
]

-- A task that is added leaves the other tasks as they were.
pub task-with_tasks :
    (g : WorkflowGraph) (x : Task) (v : Ident)
    → task (with_tasks g (insert x.id x g.topology.tasks)).topology v
      ≡ (if x.id == v then some x else task g.topology v)
unfolding task
task-with_tasks g x v = get-insert v x.id x g.topology.tasks
