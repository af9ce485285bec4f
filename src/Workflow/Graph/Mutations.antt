-- ===== src/Workflow/Graph/Mutations.antt =====
-- `apply_mutation` and the loop of `apply_batch`: what an accepted mutation keeps.
use graph_core.Base.{
  ◌≡◌, refl, sym, ◌∙◌, subst, inl, inr, true, false, List, [], ◌∷◌, some, Memᴰ, arith, Bool-cases,
  unwrap_or,
}
use graph_core.Base.Results.{Result, ok, err, panic, out_of_fuel, ◌>>=◌}
use graph_core.Base.Order.{◌==◌, ==_iff}
use graph_core.Base.BTreeMap.{get, contains_key, insert}
use graph_core.Core.Ident.{Ident, ident_ord}
use graph_core.Workflow.Topology.{
  Task, WorkflowTopology, task, task_ids, contains_task, dependencies, cycle_path,
}
use graph_core.Workflow.Facts.{ExecutionFacts, is_completed}
use graph_core.Workflow.Mutation.{WorkflowMutation, add_task, add_dependency, WorkflowGraphError}
use graph_core.Workflow.Cycles.Walks.{Edge, IsAcyclic}
use graph_core.Workflow.Cycles.Search.{IsClosed}
use graph_core.Workflow.Cycles.Verdict.{Verdict, cycle_path-Verdict}
use graph_core.Workflow.Graph.{
  WorkflowGraph, with_tasks, insert_edge, check_cycle, apply_mutation, apply_mutations,
}
use graph_core.Workflow.Graph.Edges.{
  contains_task_iff, dependencies-insert_edge_ne, Edge-insert_edge, task-with_tasks,
}

-- Every edge joins tasks, and every descent along prerequisites ends.
pub record IsDag (t : WorkflowTopology) : Type 0 where
  pub closed : IsClosed t
  pub acyclic : IsAcyclic t

-- `t'` comes after `t` under the facts `f`: no task changes or goes, no edge goes, and a completed
-- task has the prerequisites that it had.
pub record Grows (f : ExecutionFacts) (t t' : WorkflowTopology) : Type 0 where
  pub tasks_kept : (v : Ident) (x : Task) → task t v ≡ some x → task t' v ≡ some x
  pub edges_kept : (v d : Ident) → Edge t v d → Edge t' v d
  pub history_kept : (v : Ident) → is_completed f v ≡ true → dependencies t' v ≡ dependencies t v

pub Grows-refl : (f : ExecutionFacts) (t : WorkflowTopology) → Grows f t t
Grows-refl f t = record {
  tasks_kept = λ v x h. h;
  edges_kept = λ v d h. h;
  history_kept = λ v h. refl;
}

pub Grows-trans :
    (f : ExecutionFacts) (t u v : WorkflowTopology) → Grows f t u → Grows f u v → Grows f t v
Grows-trans f t u v a b = record {
  tasks_kept = λ w x h. b.tasks_kept w x (a.tasks_kept w x h);
  edges_kept = λ w d h. b.edges_kept w d (a.edges_kept w d h);
  history_kept = λ w h. b.history_kept w h ∙ a.history_kept w h;
}

-- All but the topology is as before, and the topology has grown into a DAG.
pub record Kept (g g' : WorkflowGraph) : Type 0 where
  pub facts : g'.facts ≡ g.facts
  pub revision : g'.topology_revision ≡ g.topology_revision
  pub log : g'.mutation_log ≡ g.mutation_log
  pub grows : Grows g.facts g.topology g'.topology
  pub dag : IsDag g'.topology

abbrev pub Applied : WorkflowGraph → WorkflowGraph × Result WorkflowGraphError (Unit {0}) → Type 0
Applied g (g', ok _) = Kept g g'
Applied g (g', err e) = Unit
Applied g (g', panic) = ⊥
Applied g (g', out_of_fuel) = ⊥

-- A new task has no edge.
add_task-Kept :
    (g : WorkflowGraph) (x : Task)
    → IsDag g.topology
    → contains_task g.topology x.id ≡ false
    → Kept g (with_tasks g (insert x.id x g.topology.tasks))
unfolding dependencies
add_task-Kept g x v fresh = record {
  facts = refl;
  revision = refl;
  log = refl;
  grows = record {
    tasks_kept =
        λ v y h. unfold task contains_task in ground (arith, task-with_tasks g x v, ==_iff x.id v);
    edges_kept = λ v d h. h;
    history_kept = λ v h. refl;
  };
  dag = record {
    closed = λ a d e. let (p, q) = v.closed a d e in (wider a p, wider d q);
    acyclic = v.acyclic;
  };
}
  where
    wider :
        (a : Ident)
        → Memᴰ a (task_ids g.topology)
        → Memᴰ a (task_ids (with_tasks g (insert x.id x g.topology.tasks)).topology)
    wider a m = (contains_task_iff _ a).0 (
        unfold contains_task task in
        ground (arith, (contains_task_iff g.topology a).1 m, task-with_tasks g x a))

pub insert_edge-IsClosed :
    (g : WorkflowGraph) (a b : Ident)
    → IsClosed g.topology
    → contains_task g.topology a ≡ true
    → contains_task g.topology b ≡ true
    → IsClosed (insert_edge g a b).topology
unfolding insert_edge task_ids
insert_edge-IsClosed g a b closed ha hb v d e = elim ((Edge-insert_edge g a b v d).0 e) [
  | inl s ↦ (
    subst (λ z. Memᴰ z (task_ids g.topology)) (sym s.0) ((contains_task_iff g.topology a).0 ha),
    subst (λ z. Memᴰ z (task_ids g.topology)) (sym s.1) ((contains_task_iff g.topology b).0 hb),
  )
  | inr old ↦ closed v d old
]

insert_edge-Grows :
    (g : WorkflowGraph) (a b : Ident)
    → is_completed g.facts a ≡ false
    → Grows g.facts g.topology (insert_edge g a b).topology
unfolding task
insert_edge-Grows g a b open_ = record {
  tasks_kept = λ v x h. unfold insert_edge in h;
  edges_kept = λ v d h. (Edge-insert_edge g a b v d).1 (inr h);
  history_kept = λ v h. elim (Bool-cases (a == v)) [
    | inl e ↦ absurd (ground (arith, ==_iff a v))
    | inr e ↦ dependencies-insert_edge_ne g a b v e
  ];
}

check_cycle-Applied :
    (g g' : WorkflowGraph) (a b : Ident) (r : Result (List Ident) (Unit {0}))
    → cycle_path g'.topology ≡ r
    → Verdict g'.topology r
    → (IsAcyclic g'.topology → Kept g g')
    → Applied g (check_cycle g' a b)
unfolding check_cycle
check_cycle-Applied g g' a b (ok _) e v k = rw (e, check_cycle) (k v)
check_cycle-Applied g g' a b (err path) e v k = rw (e, check_cycle) tt
check_cycle-Applied g g' a b panic e v k = absurd v
check_cycle-Applied g g' a b out_of_fuel e v k = absurd v

insert_edge-Applied :
    (g : WorkflowGraph) (a b : Ident)
    → IsDag g.topology
    → contains_task g.topology a ≡ true
    → contains_task g.topology b ≡ true
    → is_completed g.facts a ≡ false
    → Applied g (check_cycle (insert_edge g a b) a b)
unfolding insert_edge
insert_edge-Applied g a b v ha hb fresh =
    let closed = insert_edge-IsClosed g a b v.closed ha hb in
    check_cycle-Applied g (insert_edge g a b) a b (cycle_path (insert_edge g a b).topology) refl
      (cycle_path-Verdict (insert_edge g a b).topology closed)
      (λ acyclic. record {
        facts = refl;
        revision = refl;
        log = refl;
        grows = insert_edge-Grows g a b fresh;
        dag = record { closed = closed; acyclic = acyclic };
      })

-- On a DAG a mutation returns, and one that is accepted grows the topology into a DAG.
pub apply_mutation-Applied :
    (g : WorkflowGraph) (m : WorkflowMutation) → IsDag g.topology → Applied g (apply_mutation g m)
unfolding apply_mutation
apply_mutation-Applied g (add_task x) v = elim (Bool-cases (contains_task g.topology x.id)) [
  | inl h ↦ rw (h, apply_mutation) tt
  | inr h ↦ rw (h, apply_mutation) (add_task-Kept g x v h)
]
apply_mutation-Applied g (add_dependency a b) v = elim (Bool-cases (contains_task g.topology a)) [
  | inr h ↦ rw (h, apply_mutation) tt
  | inl ha ↦ elim (Bool-cases (contains_task g.topology b)) [
    | inr h ↦ rw (ha, h, apply_mutation) tt
    | inl hb ↦ elim (Bool-cases (is_completed g.facts a)) [
      | inl h ↦ rw (ha, hb, h, apply_mutation) tt
      | inr fresh ↦
          elim (Bool-cases (contains_key b (unwrap_or [] (get a g.topology.dependencies)))) [
            | inl h ↦ rw (ha, hb, fresh, h, apply_mutation) tt
            | inr h ↦
                rw (ha, hb, fresh, h, apply_mutation) (insert_edge-Applied g a b v ha hb fresh)
          ]
    ]
  ]
]

pub Kept-trans : (g h k : WorkflowGraph) → Kept g h → Kept h k → Kept g k
Kept-trans g h k a b = record {
  facts = b.facts ∙ a.facts;
  revision = b.revision ∙ a.revision;
  log = b.log ∙ a.log;
  grows =
      Grows-trans g.facts g.topology h.topology k.topology a.grows
        (subst (λ f. Grows f h.topology k.topology) a.facts b.grows);
  dag = b.dag;
}

-- The same of a loop over mutations, whose candidate is the graph that it ends with.
abbrev pub Candidate : WorkflowGraph → Result WorkflowGraphError WorkflowGraph → Type 0
Candidate g (ok g') = Kept g g'
Candidate g (err e) = Unit
Candidate g panic = ⊥
Candidate g out_of_fuel = ⊥

Candidate-later :
    (g h : WorkflowGraph) (r : Result WorkflowGraphError WorkflowGraph)
    → Kept g h
    → Candidate h r
    → Candidate g r
Candidate-later g h (ok k) a b = Kept-trans g h k a b
Candidate-later g h (err e) a b = tt
Candidate-later g h panic a b = b
Candidate-later g h out_of_fuel a b = b

Applied-bind :
    (g : WorkflowGraph) (p : WorkflowGraph × Result WorkflowGraphError (Unit {0}))
    (k : WorkflowGraph → Result WorkflowGraphError WorkflowGraph)
    → Applied g p
    → ((h : WorkflowGraph) → Kept g h → Candidate h (k h))
    → Candidate g (p.1 >>= λ _. k p.0)
Applied-bind g (h, ok _) k a f = Candidate-later g h (k h) a (f h a)
Applied-bind g (h, err e) k a f = tt
Applied-bind g (h, panic) k a f = a
Applied-bind g (h, out_of_fuel) k a f = a

pub apply_mutations-Candidate :
    (g : WorkflowGraph) (ms : List WorkflowMutation)
    → IsDag g.topology
    → Candidate g (apply_mutations g ms)
unfolding apply_mutations
apply_mutations-Candidate g [] v = record {
  facts = refl;
  revision = refl;
  log = refl;
  grows = Grows-refl g.facts g.topology;
  dag = v;
}
apply_mutations-Candidate g (m ∷ ms) v =
    Applied-bind g (apply_mutation g m) (λ h. apply_mutations h ms) (apply_mutation-Applied g m v)
      (λ h k. apply_mutations-Candidate h ms k.dag)
