-- ===== src/Workflow/Graph/Reach.antt =====
-- The graphs that a client can reach, and what holds of each.
use graph_core.Base.{
  ◌≡◌, refl, sym, ap, ◌∙◌, subst, ◌↔◌, inl, inr, true, Option, none, some, Memᴰ, Memᴰ-concat, arith,
  Bool-cases, if◌then◌else◌,
}
use graph_core.Base.Results.{Result, ok, err, panic, out_of_fuel}
use graph_core.Base.Order.{◌==◌, ==_iff}
use graph_core.Base.BTreeMap.{get, get-insert}
use mathlib.Core.List.Memᴰ
use mathlib.Core.WellFounded.{Acc}
use graph_core.Core.Ident.{Ident, ident_ord}
use graph_core.Core.Revision.{Revision}
use graph_core.Workflow.Topology.{WorkflowTopology, Task, task, contains_task, dependencies}
use graph_core.Workflow.Facts.{ExecutionFacts, CompletionRecord, is_completed}
use graph_core.Workflow.Mutation.{MutationBatch, WorkflowGraphError, WorkflowMutationRecord}
use graph_core.Workflow.Cycles.Walks.{Edge}
use graph_core.Workflow.Graph.{WorkflowGraph, default, complete, apply_batch, record_completion}
use graph_core.Workflow.Graph.Mutations.{IsDag, Grows}
use graph_core.Workflow.Graph.Batch.{Committed, Batched, apply_batch-Batched}
use graph_core.Workflow.Graph.Completion.{Completed, MayComplete, complete_lem}

-- What calls of the two public operations lead to, errors included.
pub data Reachable : WorkflowGraph → Type 0 where
  start : Reachable default
  batch :
      {g : WorkflowGraph} (expected : Revision) (b : MutationBatch)
      → Reachable g
      → Reachable (apply_batch g expected b).0
  completion : {g : WorkflowGraph} (id : Ident) → Reachable g → Reachable (complete g id).0

pub record IsValid (g : WorkflowGraph) : Type 0 where
  pub dag : IsDag g.topology
  pub known : (v : Ident) → is_completed g.facts v ≡ true → contains_task g.topology v ≡ true
  pub in_order :
      (v d : Ident)
      → is_completed g.facts v ≡ true
      → Edge g.topology v d
      → is_completed g.facts d ≡ true
  pub logged :
      (v : Ident)
      → (is_completed g.facts v ≡ true) ↔ Memᴰ (record { task_id = v }) g.facts.completion_log

default-IsValid : IsValid default
unfolding default is_completed get dependencies
default-IsValid = record {
  dag = record {
    closed = λ v d e. absurd (Memᴰ.not-nil e);
    acyclic = λ v. Acc.intro v (λ d e. absurd (Memᴰ.not-nil e));
  };
  known = λ v h. cc;
  in_order = λ v d h e. cc;
  logged = λ v. ((λ h. cc), λ m. absurd (Memᴰ.not-nil m));
}

pub contains_task-Grows :
    (f : ExecutionFacts) (t t' : WorkflowTopology) (v : Ident)
    → Grows f t t'
    → contains_task t v ≡ true
    → contains_task t' v ≡ true
unfolding contains_task task
contains_task-Grows f t t' v g h = by_entry (get v t.tasks) refl
  where
    by_entry : (o : Option Task) → get v t.tasks ≡ o → contains_task t' v ≡ true
    by_entry none e = cc
    by_entry (some x) e = rw (g.tasks_kept v x e)

Committed-IsValid :
    (g g' : WorkflowGraph) (expected : Revision) (b : MutationBatch) (r : WorkflowMutationRecord)
    → IsValid g
    → Committed g expected b g' r
    → IsValid g'
Committed-IsValid g g' expected b r v c =
    let same = λ (u : Ident). ap (λ f. is_completed f u) c.facts in
    record {
      dag = c.dag;
      known = λ u h.
          contains_task-Grows g.facts g.topology g'.topology u c.grows
            (v.known u (sym (same u) ∙ h));
      in_order = λ u d h e.
          let before = sym (same u) ∙ h in
          same d ∙ v.in_order u d before (subst (Memᴰ d) (c.grows.history_kept u before) e);
      logged = λ u.
          subst (λ f. (is_completed f u ≡ true) ↔ Memᴰ (record { task_id = u }) f.completion_log)
            (sym c.facts) (v.logged u);
    }

pub is_completed-record_completion :
    (f : ExecutionFacts) (id v : Ident)
    → is_completed (record_completion f id) v ≡ (if id == v then true else is_completed f v)
unfolding is_completed
is_completed-record_completion f id v = ground (arith, get-insert v id tt f.completed)

record_completion-IsValid :
    (g : WorkflowGraph) (id : Ident)
    → IsValid g
    → MayComplete g id
    → IsValid (record g { facts = record_completion g.facts id })
record_completion-IsValid g id v (known, fresh, done) = record {
  dag = v.dag;
  known = λ u h. elim (Bool-cases (id == u)) [
    | inl e ↦ subst (λ z. contains_task g.topology z ≡ true) ((==_iff id u).0 e) known
    | inr e ↦ v.known u (ground (arith, is_completed-record_completion g.facts id u))
  ];
  in_order = λ u d h e. elim (Bool-cases (id == u)) [
    | inl p ↦ ground (
      arith,
      is_completed-record_completion g.facts id d,
      done d (subst (λ z. Edge g.topology z d) (sym ((==_iff id u).0 p)) e),
    )
    | inr p ↦ ground (
      arith,
      is_completed-record_completion g.facts id u,
      is_completed-record_completion g.facts id d,
      v.in_order u d,
      e,
    )
  ];
  logged = λ u. ground (
    arith,
    is_completed-record_completion g.facts id u,
    ==_iff id u,
    v.logged u,
    Memᴰ-concat (record { task_id = u }) (record { task_id = id }) g.facts.completion_log,
  );
}

-- One call of either operation, whatever it returns.
after_batch-IsValid :
    (g : WorkflowGraph) (expected : Revision) (b : MutationBatch)
    (p : WorkflowGraph × Result WorkflowGraphError WorkflowMutationRecord)
    → IsValid g
    → Batched g expected b p
    → IsValid p.0
after_batch-IsValid g expected b (g', ok r) v c = Committed-IsValid g g' expected b r v c
after_batch-IsValid g expected b (g', err e) v c = subst IsValid (sym c) v
after_batch-IsValid g expected b (g', panic) v c = absurd c
after_batch-IsValid g expected b (g', out_of_fuel) v c = absurd c

after_completion-IsValid :
    (g : WorkflowGraph) (id : Ident)
    (p : WorkflowGraph × Result WorkflowGraphError CompletionRecord)
    → IsValid g
    → Completed g id p
    → IsValid p.0
after_completion-IsValid g id (g', ok c) v (m, _, e) =
    subst IsValid (sym e) (record_completion-IsValid g id v m)
after_completion-IsValid g id (g', err e) v c = subst IsValid (sym c.0) v
after_completion-IsValid g id (g', panic) v c = absurd c
after_completion-IsValid g id (g', out_of_fuel) v c = absurd c

-- Every graph that a client can reach is a DAG over its tasks; each completed task is one of them,
-- stands in the completion log, and has completed prerequisites only.
pub Reachable-IsValid : {g : WorkflowGraph} → Reachable g → IsValid g
Reachable-IsValid start = default-IsValid
Reachable-IsValid (batch {g} expected b r) =
    let v = Reachable-IsValid r in
    after_batch-IsValid g expected b (apply_batch g expected b) v
      (apply_batch-Batched g expected b v.dag)
Reachable-IsValid (completion {g} id r) =
    after_completion-IsValid g id (complete g id) (Reachable-IsValid r) (complete_lem g id)
