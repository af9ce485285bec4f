-- ===== src/Runtime/Durability/Finishing.antt =====
-- `complete_task` with the announcement of the completion.
use graph_core.Base.{◌≡◌, refl, ◌∙◌}
use graph_core.Base.Results.{Result, ok, err, panic, out_of_fuel}
use graph_core.Core.Ident.{Ident, ident_ord}
use graph_core.Workflow.Facts.{CompletionRecord}
use graph_core.Workflow.Mutation.{WorkflowGraphError}
use graph_core.Workflow.Graph.{WorkflowGraph, complete, record_completion}
use graph_core.Workflow.Graph.Completion.{MayComplete, Completed, complete_lem, Reason}
use graph_core.Recovery.Model.{AttemptId, operation_ord}
use graph_core.Runtime.State.{
  Runtime, workflow, RuntimeError, task_completed, stream, execution_backpressure,
}
use graph_core.Runtime.Action.{◌>>◌, convert, map_ok}
use graph_core.Runtime.Events.{emit_completed}
use graph_core.Runtime.Effects.{complete_task}
use graph_core.Runtime.Durability.Sound.{Sound, Ends, Ends-onward, Ends-weaken}
use graph_core.Runtime.Durability.Calm.{Calm, emit_completed-IsCalm}
use graph_core.Runtime.Durability.Endings.{
  Concludes, Concludes-onward, Concludes-weaken, Concludes-with, Ends-of_Concludes, Announced,
  Unannounced, emit_completed-Concludes,
}

abbrev pub with_completion : Runtime → Ident → Runtime
with_completion r task_id = record r {
  workflow = record (r.workflow) { facts = record_completion r.workflow.facts task_id };
}

-- The workflow refuses the completion for the reason it names.
abbrev Refused : Runtime → Ident → RuntimeError → Runtime → Type 0
Refused r task_id (workflow x) r' = Reason r.workflow task_id x × (r' ≡ r)
Refused r task_id _ r' = ⊥

abbrev Completes : Runtime → Ident → Runtime → Type 0
Completes r task_id r' = MayComplete r.workflow task_id × (r' ≡ with_completion r task_id)

complete_task-Concludes :
    (task_id : Ident) (r : Runtime)
    → Concludes (Refused r task_id) (λ _. Completes r task_id) (complete_task task_id r)
unfolding complete_task
complete_task-Concludes task_id r =
    by_result (complete r.workflow task_id) (complete_lem r.workflow task_id)
  where
    by_result :
        (p : WorkflowGraph × Result WorkflowGraphError CompletionRecord)
        → Completed r.workflow task_id p
        → Concludes
            (Refused r task_id)
            (λ _. Completes r task_id)
            (record r { workflow = p.0 }, map_ok (λ _. tt) (convert workflow p.1))
    by_result (w, ok c) (may, _, e) = (may, λ i. record r { workflow = e i })
    by_result (w, err e) (p, reason) = (reason, λ i. record r { workflow = p i })
    by_result (w, panic) h = h
    by_result (w, out_of_fuel) h = h

-- The invariant, with the same journal and the same cancelled tasks.
pub record Kept (r r' : Runtime) : Type 0 where
  pub sound : Sound r'
  pub same_journal : r'.journal ≡ r.journal
  pub same_cancelled : r'.cancelled ≡ r.cancelled

Kept-Calm : (r0 r r' : Runtime) → Kept r0 r → Calm r r' → Kept r0 r'
Kept-Calm r0 r r' k (sound, j, w, c) = record {
  sound = sound;
  same_journal = j ∙ k.same_journal;
  same_cancelled = c ∙ k.same_cancelled;
}

pub Kept-refl : (r : Runtime) → Sound r → Kept r r
Kept-refl r sound = record { sound = sound; same_journal = refl; same_cancelled = refl }

Kept-completion : (r : Runtime) (task_id : Ident) → Sound r → Kept r (with_completion r task_id)
Kept-completion r task_id sound = record {
  sound = sound;
  same_journal = refl;
  same_cancelled = refl;
}

-- The task, which was open to completion, is completed, and that is announced.
abbrev pub Finished : Runtime → Ident → AttemptId → Runtime → Type 0
Finished r task_id a r' =
    MayComplete r.workflow task_id
    × Announced (with_completion r task_id) (task_completed r.run_id task_id a) r'

-- The completion is refused, or it is not announced.
abbrev pub Unfinished : Runtime → Ident → AttemptId → RuntimeError → Runtime → Type 0
Unfinished r task_id a (workflow x) r' = Reason r.workflow task_id x × (r' ≡ r)
Unfinished r task_id a e r' =
    MayComplete r.workflow task_id
    × Unannounced (with_completion r task_id) (task_completed r.run_id task_id a) e r'

Unfinished-of_Refused :
    (r : Runtime) (task_id : Ident) (a : AttemptId) (e : RuntimeError) (r' : Runtime)
    → Refused r task_id e r'
    → Unfinished r task_id a e r'
Unfinished-of_Refused r task_id a (workflow x) r' h = h
Unfinished-of_Refused r task_id a _ r' h = absurd h

Unfinished-of_Unannounced :
    (r : Runtime) (task_id : Ident) (a : AttemptId) (e : RuntimeError) (r' : Runtime)
    → MayComplete r.workflow task_id
    → Unannounced (with_completion r task_id) (task_completed r.run_id task_id a) e r'
    → Unfinished r task_id a e r'
Unfinished-of_Unannounced r task_id a (stream _) r' may h = (may, h)
Unfinished-of_Unannounced r task_id a (execution_backpressure _) r' may h = (may, h)
Unfinished-of_Unannounced r task_id a _ r' may h = absurd h

module _ (task_id : Ident) (a : AttemptId) (r : Runtime) where
  finish-Concludes :
      Concludes
        (Unfinished r task_id a)
        (λ _. Finished r task_id a)
        ((complete_task task_id >> emit_completed task_id a) r)
  finish-Concludes =
      let done : Runtime = with_completion r task_id in
      let event = task_completed r.run_id task_id a in
      Concludes-onward (Unfinished r task_id a) (λ _. Completes r task_id)
        (λ _. Finished r task_id a) (complete_task task_id r) (λ _. emit_completed task_id a)
        (Concludes-weaken (Refused r task_id) (Unfinished r task_id a) (λ _. Completes r task_id)
          (λ _. Completes r task_id) (complete_task task_id r) (Unfinished-of_Refused r task_id a)
          (λ _ _ h. h) (complete_task-Concludes task_id r))
        (λ _ r' (might, e). rw e (
          Concludes-weaken (Unannounced done event) (Unfinished r task_id a)
            (λ _. Announced done event) (λ _. Finished r task_id a) (emit_completed task_id a done)
            (λ x t h. Unfinished-of_Unannounced r task_id a x t might h) (λ _ t h. (might, h))
            (emit_completed-Concludes task_id a done)))

  finish-Kept :
      Sound r → Ends (Kept r) (λ _. Kept r) ((complete_task task_id >> emit_completed task_id a) r)
  finish-Kept sound =
      let done : Runtime = with_completion r task_id in
      Ends-onward (Kept r) (λ _. Completes r task_id) (λ _. Kept r) (complete_task task_id r)
        (λ _. emit_completed task_id a)
        (Ends-of_Concludes (Refused r task_id) (Kept r) (λ _. Completes r task_id)
          (λ _. Completes r task_id) (complete_task task_id r) kept_of_Refused (λ _ _ h. h)
          (complete_task-Concludes task_id r))
        (λ _ r' (might, e).
          let kept = Kept-completion r task_id sound in
          rw e (
            Ends-weaken (Calm done) (Kept r) (λ _. Calm done) (λ _. Kept r)
              (emit_completed task_id a done) (λ t. Kept-Calm r done t kept)
              (λ _ t. Kept-Calm r done t kept) (emit_completed-IsCalm task_id a done sound)))
    where
      kept_of_Refused : (e : RuntimeError) (r' : Runtime) → Refused r task_id e r' → Kept r r'
      kept_of_Refused (workflow x) r' (_, e) = rw e (Kept-refl r sound)
      kept_of_Refused _ r' h = absurd h

  -- A completion that is announced.
  pub finish_lem :
      Sound r
      → Concludes
          (λ e r'. Kept r r' × Unfinished r task_id a e r')
          (λ _ r'. Kept r r' × Finished r task_id a r')
          ((complete_task task_id >> emit_completed task_id a) r)
  finish_lem sound =
      Concludes-with (Kept r) (Unfinished r task_id a) (λ _. Kept r) (λ _. Finished r task_id a)
        ((complete_task task_id >> emit_completed task_id a) r) (finish-Kept sound) finish-Concludes
