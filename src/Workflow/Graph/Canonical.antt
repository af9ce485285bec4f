-- ===== src/Workflow/Graph/Canonical.antt =====
-- The topology of a graph is what its lookups are, in whatever order tasks and edges came in.
use graph_core.Base.{
  ◌≡◌, refl, sym, subst, ◌↔◌, ◌≢◌, inl, inr, true, List, [], ◌∷◌, Option, none, some, is_some, Memᴰ,
  arith, Bool-cases, unwrap_or,
}
use mathlib.Core.List.Memᴰ
use graph_core.Base.Results.{Result, ok, err, panic, out_of_fuel}
use graph_core.Base.Order.{◌==◌}
use graph_core.Base.BTreeMap.{BTreeSet, get, insert, get-insert, keys, contains_key_iff}
use graph_core.Base.Sorted.{IsSorted, insert-IsSorted, eq_of_get}
use graph_core.Core.Ident.{Ident, ident_ord}
use graph_core.Workflow.Topology.{WorkflowTopology, task, dependencies}
use graph_core.Workflow.Mutation.{
  MutationBatch, WorkflowMutationRecord, WorkflowMutation, add_task, add_dependency,
  WorkflowGraphError,
}
use graph_core.Core.Revision.{Revision}
use graph_core.Workflow.Facts.{CompletionRecord}
use graph_core.Workflow.Graph.Batch.{Batched, apply_batch-Batched}
use graph_core.Workflow.Graph.Completion.{Completed, complete_lem}
use graph_core.Workflow.Graph.Reach.{Reachable, start, batch, completion, Reachable-IsValid}
use graph_core.Workflow.Cycles.Walks.{Edge}
use graph_core.Workflow.Graph.{
  WorkflowGraph, default, insert_edge, apply_mutation, apply_mutations, apply_batch, complete,
  ready_tasks, prerequisites_completed,
}
use graph_core.Workflow.Graph.Mutations.{IsDag, Applied, apply_mutation-Applied}
use graph_core.Workflow.Graph.Guards.{Guarded, changed, apply_mutation-Guarded}

pub record IsCanonical (t : WorkflowTopology) : Type 0 where
  pub tasks : IsSorted t.tasks
  pub owners : IsSorted t.dependencies
  pub sets :
      (v : Ident) (ds : BTreeSet Ident) → get v t.dependencies ≡ some ds → IsSorted ds × (ds ≢ [])

insert-not-nil : (d : Ident) (s : BTreeSet Ident) → insert d tt s ≢ []
unfolding insert
insert-not-nil d [] h = cc
insert-not-nil d (e ∷ s) h = ground arith

changed-IsCanonical :
    (g : WorkflowGraph) (m : WorkflowMutation)
    → IsCanonical g.topology
    → IsCanonical (changed g m).topology
unfolding insert_edge
changed-IsCanonical g (add_task x) c = record {
  tasks = insert-IsSorted x.id x g.topology.tasks c.tasks;
  owners = c.owners;
  sets = c.sets;
}
changed-IsCanonical g (add_dependency a b) c =
    let ds = g.topology.dependencies in
    let old = unwrap_or [] (get a ds) in
    record {
      tasks = c.tasks;
      owners = insert-IsSorted a (insert b tt old) ds c.owners;
      sets = λ v s h. elim (Bool-cases (a == v)) [
        | inr n ↦ c.sets v s (ground (arith, get-insert v a (insert b tt old) ds))
        | inl y ↦
            let same : insert b tt old ≡ s = ground (arith, get-insert v a (insert b tt old) ds) in
            subst (λ z. IsSorted z × (z ≢ [])) same
              (insert-IsSorted b tt old (sorted_old (get a ds) refl), insert-not-nil b old)
      ];
    }
  where
    sorted_old :
        (o : Option (BTreeSet Ident))
        → get a g.topology.dependencies ≡ o
        → IsSorted (unwrap_or [] o)
    sorted_old none e = tt
    sorted_old (some s) e = (c.sets a s e).0

eq_of_members :
    (s t : BTreeSet Ident)
    → IsSorted s
    → IsSorted t
    → ((d : Ident) → Memᴰ d (keys s) ↔ Memᴰ d (keys t))
    → s ≡ t
eq_of_members s t p q h =
    eq_of_get s t p q (λ d.
      by_get (get d s) (get d t) refl refl (contains_key_iff d s) (contains_key_iff d t) (h d))
  where
    by_get :
        {d : Ident} (x y : Option (Unit {0}))
        → get d s ≡ x
        → get d t ≡ y
        → (is_some (get d s) ≡ true) ↔ Memᴰ d (keys s)
        → (is_some (get d t) ≡ true) ↔ Memᴰ d (keys t)
        → Memᴰ d (keys s) ↔ Memᴰ d (keys t)
        → get d s ≡ get d t
    by_get x y e f a b c = ground arith

-- Topologies in canonical form with the same tasks and the same edges are equal.
pub eq_of_lookups :
    (t u : WorkflowTopology)
    → IsCanonical t
    → IsCanonical u
    → ((v : Ident) → task t v ≡ task u v)
    → ((v d : Ident) → Edge t v d ↔ Edge u v d)
    → t ≡ u
unfolding task dependencies
eq_of_lookups t u p q same_task same_edge =
    let e = eq_of_get t.tasks u.tasks p.tasks q.tasks same_task in
    let f =
      eq_of_get t.dependencies u.dependencies p.owners q.owners
        (λ v. by_sets v (get v t.dependencies) (get v u.dependencies) refl refl (same_edge v)) in
    λ i. record { tasks = e i; dependencies = f i }
  where
    no_members : (s : BTreeSet Ident) → ((d : Ident) → ¬ Memᴰ d (keys s)) → s ≡ []
    no_members [] h = refl
    no_members (x ∷ s) h = absurd (h x.0 (Memᴰ.head refl))

    by_sets :
        (v : Ident) (x y : Option (BTreeSet Ident))
        → get v t.dependencies ≡ x
        → get v u.dependencies ≡ y
        → ((d : Ident)
            → Memᴰ d (keys (unwrap_or [] (get v t.dependencies)))
              ↔ Memᴰ d (keys (unwrap_or [] (get v u.dependencies))))
        → get v t.dependencies ≡ get v u.dependencies
    by_sets v none none e f h = ground arith
    by_sets v (some a) none e f h =
        absurd ((p.sets v a e).1 (no_members a (λ d m. Memᴰ.not-nil (rw f at ((h d).0 (rw e m))))))
    by_sets v none (some b) e f h =
        absurd ((q.sets v b f).1 (no_members b (λ d m. Memᴰ.not-nil (rw e at ((h d).1 (rw f m))))))
    by_sets v (some a) (some b) e f h =
        let same = eq_of_members a b (p.sets v a e).0 (q.sets v b f).0 (rw (e, f) at h) in
        ground arith

abbrev pub Yields : Result WorkflowGraphError WorkflowGraph → Type 0
Yields (ok g) = IsCanonical g.topology
Yields _ = Unit

apply_mutations-Yields :
    (g : WorkflowGraph) (ms : List WorkflowMutation)
    → IsDag g.topology
    → IsCanonical g.topology
    → Yields (apply_mutations g ms)
unfolding apply_mutations
apply_mutations-Yields g [] v c = c
apply_mutations-Yields g (m ∷ ms) v c =
    by_result (λ h w d. apply_mutations-Yields h ms w d) (apply_mutation g m) refl
      (apply_mutation-Guarded g m v) (apply_mutation-Applied g m v)
  where
    by_result :
        ((h : WorkflowGraph)
          → IsDag h.topology
          → IsCanonical h.topology
          → Yields (apply_mutations h ms))
        → (p : WorkflowGraph × Result WorkflowGraphError (Unit {0})) → apply_mutation g m ≡ p
        → Guarded g m p
        → Applied g p
        → Yields (apply_mutations g (m ∷ ms))
    by_result later (h, ok _) e (_, same) k =
        rw (e, apply_mutations)
          (later h k.dag
            (subst (λ z. IsCanonical z.topology) (sym same) (changed-IsCanonical g m c)))
    by_result later (h, err x) e s k = rw (e, apply_mutations) tt
    by_result later (h, panic) e s k = absurd k
    by_result later (h, out_of_fuel) e s k = absurd k

after_batch-IsCanonical :
    (g : WorkflowGraph) (expected : Revision) (b : MutationBatch)
    (p : WorkflowGraph × Result WorkflowGraphError WorkflowMutationRecord)
    → IsDag g.topology
    → IsCanonical g.topology
    → Batched g expected b p
    → IsCanonical p.0.topology
after_batch-IsCanonical g expected b (h, ok r) v c k =
    let (candidate, e, same) = k.applied in
    subst IsCanonical (sym same) (subst Yields e (apply_mutations-Yields g b.mutations v c))
after_batch-IsCanonical g expected b (h, err x) v c same =
    subst (λ z. IsCanonical z.topology) (sym same) c
after_batch-IsCanonical g expected b (h, panic) v c k = absurd k
after_batch-IsCanonical g expected b (h, out_of_fuel) v c k = absurd k

after_completion-IsCanonical :
    (g : WorkflowGraph) (id : Ident)
    (p : WorkflowGraph × Result WorkflowGraphError CompletionRecord)
    → IsCanonical g.topology
    → Completed g id p
    → IsCanonical p.0.topology
after_completion-IsCanonical g id (h, ok r) c k = subst (λ z. IsCanonical z.topology) (sym k.2) c
after_completion-IsCanonical g id (h, err x) c (same, _) =
    subst (λ z. IsCanonical z.topology) (sym same) c
after_completion-IsCanonical g id (h, panic) c k = absurd k
after_completion-IsCanonical g id (h, out_of_fuel) c k = absurd k

Reachable-IsCanonical : {g : WorkflowGraph} → Reachable g → IsCanonical g.topology
unfolding default get
Reachable-IsCanonical start = record { tasks = tt; owners = tt; sets = λ v ds h. cc }
Reachable-IsCanonical (batch {g} expected b r) =
    after_batch-IsCanonical g expected b (apply_batch g expected b) (Reachable-IsValid r).dag
      (Reachable-IsCanonical r) (apply_batch-Batched g expected b (Reachable-IsValid r).dag)
Reachable-IsCanonical (completion {g} id r) =
    after_completion-IsCanonical g id (complete g id) (Reachable-IsCanonical r) (complete_lem g id)

-- Two graphs that clients can reach with the same tasks and the same edges have the same topology,
-- whatever the order was in which these came in, and with the same facts also the same ready tasks.
pub topology_is_canonical :
    {g h : WorkflowGraph}
    → Reachable g
    → Reachable h
    → ((v : Ident) → task g.topology v ≡ task h.topology v)
    → ((v d : Ident) → Edge g.topology v d ↔ Edge h.topology v d)
    → (g.topology ≡ h.topology) × (g.facts ≡ h.facts → ready_tasks g ≡ ready_tasks h)
unfolding ready_tasks prerequisites_completed
topology_is_canonical {g} {h} r s same_tasks same_edges =
    let e =
      eq_of_lookups g.topology h.topology (Reachable-IsCanonical r) (Reachable-IsCanonical s)
        same_tasks same_edges in
    (e, λ f. rw (e, f) refl)
