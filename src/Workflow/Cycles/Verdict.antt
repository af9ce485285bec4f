-- ===== src/Workflow/Cycles/Verdict.antt =====
-- `cycle_path` returns: a cycle of the topology, or nothing, and then there is none.
use graph_core.Base.{
  ℕ, ◌≤◌, ◌≡◌, refl, ◌⊎◌, inl, inr, List, [], ◌∷◌, Option, none, some, Memᴰ, arith, All-lookup,
  length, length-map,
}
use graph_core.Base.Results.{Result, ok, err, panic, out_of_fuel, ◌>>=◌}
use graph_core.Base.BTreeMap.{get}
use graph_core.Core.Ident.{Ident, ident_ord}
use graph_core.Workflow.Topology.{
  Task, WorkflowTopology, dependencies, task_ids, VisitState, active, complete, Marks, Search,
  visit, visit_tasks, cycle_path,
}
use graph_core.Base.Walks.{not-IsCycle}
use graph_core.Workflow.Cycles.Walks.{IsCycle, IsAcyclic}
use graph_core.Base.Marking.{unmarked, unmarked-nil, unmarked-Extends}
use mathlib.Core.WellFounded.{Acc}
use mathlib.Core.List.Memᴰ
use graph_core.Workflow.Cycles.Search.{
  IsClosed, Inv, Post, AllComplete, Post-earlier, Post-bind, visit-Visits,
}

module _ (t : WorkflowTopology) where
  -- The search returns: nothing, and then the topology is acyclic, or a cycle of the topology.
  abbrev pub Verdict : Result (List Ident) (Unit {0}) → Type 0
  Verdict (ok _) = IsAcyclic t
  Verdict (err path) = IsCycle t path
  Verdict panic = ⊥
  Verdict out_of_fuel = ⊥

  module _ (closed : IsClosed t) where
    visit_tasks_step :
        (fuel : ℕ) (id : Ident) (ids : List Ident) (m : Marks) (o : Option VisitState)
        → get id m ≡ o
        → Inv t m []
        → Memᴰ id (task_ids t)
        → unmarked (task_ids t) m ≤ fuel
        → ((m' : Marks)
            → Inv t m' []
            → unmarked (task_ids t) m' ≤ fuel
            → Post t (AllComplete t ids) m' [] (visit_tasks (visit fuel t) ids m' []))
        → Post t (AllComplete t (id ∷ ids)) m [] (visit_tasks (visit fuel t) (id ∷ ids) m [])
    unfolding visit_tasks
    visit_tasks_step fuel id ids m none e i k u rest =
        let rec = visit fuel t in
        rw (e, visit_tasks)
          (Post-bind t (λ m'. get id m' ≡ some complete) (AllComplete t (id ∷ ids)) m []
            (rec id m []) (visit_tasks rec ids) (visit-Visits t closed fuel id m [] i e k tt u)
            (λ m' i' x done.
              Post-earlier t (AllComplete t ids) (AllComplete t (id ∷ ids)) m m' []
                (visit_tasks rec ids m' []) x (λ m'' x' cs. (x' id complete done, cs))
                (rest m' i' (omega (arith, unmarked-Extends (task_ids t) m m' x)))))
    visit_tasks_step fuel id ids m (some active) e i k u rest =
        absurd (Memᴰ.not-nil (i.on_stack id e))
    visit_tasks_step fuel id ids m (some complete) e i k u rest =
        rw (e, visit_tasks)
          (Post-earlier t (AllComplete t ids) (AllComplete t (id ∷ ids)) m m []
            (visit_tasks (visit fuel t) ids m []) (λ v x e'. e') (λ m'' x cs. (x id complete e, cs))
            (rest m i u))

    visit_tasks-Post :
        (fuel : ℕ) (ids : List Ident) (m : Marks)
        → Inv t m []
        → ((v : Ident) → Memᴰ v ids → Memᴰ v (task_ids t))
        → unmarked (task_ids t) m ≤ fuel
        → Post t (AllComplete t ids) m [] (visit_tasks (visit fuel t) ids m [])
    unfolding visit_tasks
    visit_tasks-Post fuel [] m i k u = (refl, i, (λ v x e. e), tt)
    visit_tasks-Post fuel (id ∷ ids) m i k u =
        visit_tasks_step fuel id ids m (get id m) refl i (k id (Memᴰ.head refl)) u
          (λ m' i' u'. visit_tasks-Post fuel ids m' i' (λ v h. k v (Memᴰ.tail h)) u')

    start-Inv : Inv t [] []
    unfolding get
    start-Inv = record { grounded = λ v h. cc; on_stack = λ v h. cc; chain = tt }

    IsAcyclic_of_complete : (m : Marks) → Inv t m [] → AllComplete t (task_ids t) m → IsAcyclic t
    IsAcyclic_of_complete m i a v = Acc.intro v (λ d edge.
        i.grounded d
          (All-lookup (λ d. get d m ≡ some complete) (task_ids t) a d (closed v d edge).1))

    Verdict-of_Post :
        (r : Search) → Post t (AllComplete t (task_ids t)) [] [] r → Verdict (r >>= λ _. ok tt)
    Verdict-of_Post (ok (m, s)) (_, i, _, a) = IsAcyclic_of_complete m i a
    Verdict-of_Post (err path) c = c
    Verdict-of_Post panic c = c
    Verdict-of_Post out_of_fuel c = c

    pub cycle_path-Verdict : Verdict (cycle_path t)
    unfolding cycle_path task_ids
    cycle_path-Verdict = Verdict-of_Post _ (
        visit_tasks-Post (length t.tasks) (task_ids t) [] start-Inv (λ v h. h)
          (omega (
            arith,
            unmarked-nil VisitState (task_ids t),
            length-map t.tasks (λ (e : Ident × Task). e.0),
          )))

-- On a topology whose edges join tasks the search always returns. It answers `None` exactly where
-- every descent along prerequisites ends, and otherwise a path of edges that ends where it begins.
pub cycle_path_decides :
    (t : WorkflowTopology)
    → IsClosed t
    → ((cycle_path t ≡ ok tt) × IsAcyclic t)
      ⊎ ((path : List Ident) × (cycle_path t ≡ err path) × IsCycle t path × ¬ IsAcyclic t)
cycle_path_decides t closed = by_result (cycle_path t) refl (cycle_path-Verdict t closed)
  where
    by_result :
        (r : Result (List Ident) (Unit {0}))
        → cycle_path t ≡ r
        → Verdict t r
        → ((cycle_path t ≡ ok tt) × IsAcyclic t)
          ⊎ ((path : List Ident) × (cycle_path t ≡ err path) × IsCycle t path × ¬ IsAcyclic t)
    by_result (ok _) e v = inl (e, v)
    by_result (err path) e v = inr (path, e, v, λ a. not-IsCycle (dependencies t) a path v)
    by_result panic e v = absurd v
    by_result out_of_fuel e v = absurd v
