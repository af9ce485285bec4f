-- ===== src/Workflow/Graph/Completion.antt =====
-- `complete`, on every branch, and `ready_tasks`.
use graph_core.Base.{
  ◌≡◌, refl, ◌↔◌, inl, inr, true, false, not, List, [], ◌∷◌, Memᴰ, arith, Bool-cases, Option-cases,
  all_iff, mem-filter,
}
use graph_core.Base.Results.{Result, ok, err, panic, out_of_fuel}
use graph_core.Base.BTreeMap.{get, keys}
use mathlib.Core.List.Memᴰ
use graph_core.Core.Ident.{Ident, ident_ord}
use graph_core.Workflow.Topology.{contains_task, dependencies, task_ids}
use graph_core.Workflow.Facts.{ExecutionFacts, CompletionRecord, is_completed}
use graph_core.Workflow.Mutation.{
  WorkflowGraphError, unknown_task, task_already_completed, incomplete_prerequisite,
}
use graph_core.Workflow.Cycles.Walks.{Edge}
use graph_core.Workflow.Graph.{
  WorkflowGraph, complete, check_completion, check_prerequisites, record_completion, ready_tasks,
  prerequisites_completed,
}
use graph_core.Workflow.Graph.Edges.{contains_task_iff}

abbrev pub AllCompleted : ExecutionFacts → List Ident → Type 0
AllCompleted f ds = (d : Ident) → Memᴰ d ds → is_completed f d ≡ true

-- What refuses a completion.
abbrev pub Reason : WorkflowGraph → Ident → WorkflowGraphError → Type 0
Reason g id (unknown_task v) = (v ≡ id) × (contains_task g.topology id ≡ false)
Reason g id (task_already_completed v) = (v ≡ id) × (is_completed g.facts id ≡ true)
Reason g id (incomplete_prerequisite v d) =
    (v ≡ id) × Edge g.topology id d × (is_completed g.facts d ≡ false)
Reason g id _ = ⊥

-- A task of the graph, not completed, with completed prerequisites.
abbrev pub MayComplete : WorkflowGraph → Ident → Type 0
MayComplete g id =
    (contains_task g.topology id ≡ true)
    × (is_completed g.facts id ≡ false)
    × AllCompleted g.facts (dependencies g.topology id)

abbrev Prerequisites :
    ExecutionFacts → Ident → List Ident → Result WorkflowGraphError (Unit {0}) → Type 0
Prerequisites f id ds (ok _) = AllCompleted f ds
Prerequisites f id ds (err (incomplete_prerequisite v d)) =
    (v ≡ id) × Memᴰ d ds × (is_completed f d ≡ false)
Prerequisites f id ds _ = ⊥

Prerequisites-later :
    (f : ExecutionFacts) (id d : Ident) (ds : List Ident) (r : Result WorkflowGraphError (Unit {0}))
    → is_completed f d ≡ true
    → Prerequisites f id ds r
    → Prerequisites f id (d ∷ ds) r
Prerequisites-later f id d ds (ok _) h p =
    λ e m. elim (Memᴰ.cases_cons m) [ inl s ↦ rw s h | inr t ↦ p e t ]
Prerequisites-later f id d ds (err (incomplete_prerequisite v e)) h p = (p.0, Memᴰ.tail p.1, p.2)
Prerequisites-later f id d ds (err _) h p = p
Prerequisites-later f id d ds panic h p = p
Prerequisites-later f id d ds out_of_fuel h p = p

check_prerequisites_lem :
    (f : ExecutionFacts) (id : Ident) (ds : List Ident)
    → Prerequisites f id ds (check_prerequisites f id ds)
unfolding check_prerequisites
check_prerequisites_lem f id [] = λ d m. absurd (Memᴰ.not-nil m)
check_prerequisites_lem f id (d ∷ ds) = elim (Bool-cases (is_completed f d)) [
  | inl h ↦
      rw (h, check_prerequisites)
        (Prerequisites-later f id d ds (check_prerequisites f id ds) h
          (check_prerequisites_lem f id ds))
  | inr h ↦ rw (h, check_prerequisites) (refl, Memᴰ.head refl, h)
]

abbrev Checked : WorkflowGraph → Ident → Result WorkflowGraphError (Unit {0}) → Type 0
Checked g id (ok _) = MayComplete g id
Checked g id (err e) = Reason g id e
Checked g id panic = ⊥
Checked g id out_of_fuel = ⊥

Checked-of_Prerequisites :
    (g : WorkflowGraph) (id : Ident) (r : Result WorkflowGraphError (Unit {0}))
    → contains_task g.topology id ≡ true
    → is_completed g.facts id ≡ false
    → Prerequisites g.facts id (dependencies g.topology id) r
    → Checked g id r
Checked-of_Prerequisites g id (ok _) a b p = (a, b, p)
Checked-of_Prerequisites g id (err (incomplete_prerequisite v d)) a b p = p
Checked-of_Prerequisites g id (err _) a b p = absurd p
Checked-of_Prerequisites g id panic a b p = p
Checked-of_Prerequisites g id out_of_fuel a b p = p

check_completion_lem : (g : WorkflowGraph) (id : Ident) → Checked g id (check_completion g id)
unfolding check_completion
check_completion_lem g id = elim (Bool-cases (contains_task g.topology id)) [
  | inr h ↦ rw (h, check_completion) (refl, h)
  | inl h ↦ elim (Bool-cases (is_completed g.facts id)) [
    | inl k ↦ rw (h, k, check_completion) (refl, k)
    | inr k ↦
        rw (h, k, check_completion)
          (Checked-of_Prerequisites g id
            (check_prerequisites g.facts id (dependencies g.topology id)) h k
            (check_prerequisites_lem g.facts id (dependencies g.topology id)))
  ]
]

abbrev pub Completed :
    WorkflowGraph → Ident → WorkflowGraph × Result WorkflowGraphError CompletionRecord → Type 0
Completed g id (g', ok c) =
    MayComplete g id × (c.task_id ≡ id) × (g' ≡ record g { facts = record_completion g.facts id })
Completed g id (g', err e) = (g' ≡ g) × Reason g id e
Completed g id (g', panic) = ⊥
Completed g id (g', out_of_fuel) = ⊥

-- `complete` succeeds only for a known task that is not completed and whose prerequisites all are;
-- it then adds the task to the facts and their log and changes nothing else. An error changes
-- nothing and is about the guard that failed: the task is unknown, or already completed, or has
-- the named prerequisite and that is not completed.
pub complete_lem : (g : WorkflowGraph) (id : Ident) → Completed g id (complete g id)
unfolding complete
complete_lem g id = by_result (check_completion g id) refl (check_completion_lem g id)
  where
    by_result :
        (r : Result WorkflowGraphError (Unit {0}))
        → check_completion g id ≡ r
        → Checked g id r
        → Completed g id (complete g id)
    by_result (ok _) e p = rw (e, complete) (p, refl, refl)
    by_result (err x) e p = rw (e, complete) (refl, p)
    by_result panic e p = absurd p
    by_result out_of_fuel e p = absurd p

prerequisites_completed_iff :
    (g : WorkflowGraph) (id : Ident)
    → (prerequisites_completed g id ≡ true) ↔ AllCompleted g.facts (dependencies g.topology id)
unfolding prerequisites_completed dependencies
prerequisites_completed_iff g id = elim (Option-cases (get id g.topology.dependencies)) [
  | inl e ↦ rw (e, prerequisites_completed) ((λ _ d m. absurd (Memᴰ.not-nil m)), λ _. refl)
  | inr (ds, e) ↦ rw (e, prerequisites_completed) (all_iff (is_completed g.facts) (keys ds))
]

-- A task is ready exactly when it is known, not completed, and its prerequisites are completed.
pub mem-ready_tasks : (g : WorkflowGraph) (id : Ident) → Memᴰ id (ready_tasks g) ↔ MayComplete g id
unfolding ready_tasks task_ids
mem-ready_tasks g id = (
  λ m.
      let (inner, p) = (mem-filter (prerequisites_completed g) id _).0 m in
      let (known, q) = (mem-filter (λ v. not (is_completed g.facts v)) id _).0 inner in
      (
        (contains_task_iff g.topology id).1 known,
        ground arith,
        (prerequisites_completed_iff g id).0 p,
      ),
  λ (known, fresh, p). (mem-filter (prerequisites_completed g) id _).1 (
    (mem-filter (λ v. not (is_completed g.facts v)) id _).1
        ((contains_task_iff g.topology id).0 known, ground arith),
    (prerequisites_completed_iff g id).1 p,
  ),
)

accepts_of_MayComplete :
    (g : WorkflowGraph) (id : Ident)
    (p : WorkflowGraph × Result WorkflowGraphError CompletionRecord)
    → MayComplete g id
    → Completed g id p
    → (c : CompletionRecord) × (p.1 ≡ ok c)
accepts_of_MayComplete g id (g', ok c) m h = (c, refl)
accepts_of_MayComplete g id (g', err (unknown_task v)) m h = cc (m.0, h.1.1)
accepts_of_MayComplete g id (g', err (task_already_completed v)) m h = cc (m.1, h.1.1)
accepts_of_MayComplete g id (g', err (incomplete_prerequisite v d)) m h = cc (m.2 d h.1.1, h.1.2)
accepts_of_MayComplete g id (g', err _) m h = absurd h.1
accepts_of_MayComplete g id (g', panic) m h = absurd h
accepts_of_MayComplete g id (g', out_of_fuel) m h = absurd h

MayComplete-of_accepts :
    (g : WorkflowGraph) (id : Ident)
    (p : WorkflowGraph × Result WorkflowGraphError CompletionRecord) (c : CompletionRecord)
    → p.1 ≡ ok c
    → Completed g id p
    → MayComplete g id
MayComplete-of_accepts g id (g', ok c') c e h = h.0
MayComplete-of_accepts g id (g', err _) c e h = cc
MayComplete-of_accepts g id (g', panic) c e h = cc
MayComplete-of_accepts g id (g', out_of_fuel) c e h = cc

-- The ready tasks are exactly those that `complete` accepts.
pub ready_iff_complete :
    (g : WorkflowGraph) (id : Ident)
    → Memᴰ id (ready_tasks g) ↔ ((c : CompletionRecord) × ((complete g id).1 ≡ ok c))
ready_iff_complete g id = (
  λ m. accepts_of_MayComplete g id (complete g id) ((mem-ready_tasks g id).0 m) (complete_lem g id),
  λ (c, e).
      (mem-ready_tasks g id).1
        (MayComplete-of_accepts g id (complete g id) c e (complete_lem g id)),
)
