-- ===== src/Runtime/Durability/Steps.antt =====
-- A step of the scheduler.
use graph_core.Base.{◌≡◌, refl, subst, inl, inr, Option, none, some, Memᴰ, sym}
use graph_core.Base.Results.{err}
use graph_core.Runtime.State.{
  execution_backpressure, StepResult, completed, effect_pending, blocked, idle, Runtime,
  TaskAttempt, RuntimeEvent,
}
use graph_core.Core.Ident.{Ident, ident_ord}
use graph_core.Workflow.Graph.{WorkflowGraph, ready_tasks}
use graph_core.Workflow.Graph.Completion.{MayComplete, mem-ready_tasks}
use graph_core.Stream.Item.{StreamItem}
use graph_core.Recovery.Model.{operation_ord}
use graph_core.Runtime.Step.{step_task, first_open, step_open, step}
use graph_core.Runtime.Durability.Sound.{Sound, Ends}
use graph_core.Runtime.Durability.Endings.{Concludes, Concludes-weaken, Ends-of_Concludes}
use graph_core.Runtime.Durability.TaskSteps.{Fails, Succeeds, step_task-Concludes}
use graph_core.Runtime.Durability.Scheduling.{
  completing, FirstOpen, Chooses, TaskStepped, Advanced, Halted, first_open-Chooses,
}
use mathlib.Core.List.Memᴰ

-- A step that reports a completion completed that task, which was open to it; any other step leaves
-- the workflow as it was.
abbrev pub Moves : WorkflowGraph → StepResult → WorkflowGraph → Type 0
Moves w (completed task_id _) w' = MayComplete w task_id × (w' ≡ completing w task_id)
Moves w (effect_pending _ _ _) w' = w' ≡ w
Moves w (blocked _ _ _) w' = w' ≡ w
Moves w idle w' = w' ≡ w

abbrev pub Stepped : WorkflowGraph → StepResult → Runtime → Type 0
Stepped w x r = Sound r × Moves w x r.workflow

-- A chosen task is ready.
MayComplete-of_FirstOpen :
    (r : Runtime) (t : Ident) → FirstOpen r (ready_tasks r.workflow) t → MayComplete r.workflow t
MayComplete-of_FirstOpen r t first =
    (mem-ready_tasks r.workflow t).0
      (subst (Memᴰ t) (sym (first.place)) (Memᴰ.append_right first.before (Memᴰ.head refl)))

step_retained :
    (r : Runtime) (attempt : TaskAttempt) (item : StreamItem RuntimeEvent)
    → r.pending_started ≡ some (attempt, item)
    → step r ≡ (r, err (execution_backpressure item))
unfolding step
step_retained r attempt item e = simp (step, e)

step_unretained :
    (r : Runtime)
    → r.pending_started ≡ none
    → step r ≡ step_open (first_open r (ready_tasks r.workflow)) r
unfolding step
step_unretained r e = simp (step, e)

-- A step on a sound runtime returns and keeps it sound, however it ends. While an attempt is
-- retained, it fails with the retained item and changes nothing. Else it takes the first ready task
-- that is not cancelled; without one it reports `idle` and changes nothing. A completion that it
-- reports is of that task, which was open to it, is the only change of the workflow, is announced as
-- the last pending item of the lifecycle stream, and the task has no effect or one with known
-- success. A pending effect that it reports is of that task, owned by it and prepared. A blocked
-- task that it reports is that task, with its effect in an unknown state and the action that
-- `classify_recovery` decides, or with known failure and `observe_failure`. If it fails on the
-- chosen task, then either the workflow is as it was and the effect of the task had no intent or was
-- prepared, or the task is completed but its announcement found the stream exhausted or full.
pub step_lem :
    (r : Runtime)
    → Sound r
    → Concludes (λ e r'. Sound r' × Halted r e r') (λ x r'. Sound r' × Advanced r x r') (step r)
unfolding step_open
step_lem r sound = by_pending r.pending_started refl
  where
    by_open :
        r.pending_started ≡ none
        → (o : Option Ident) → Chooses r (ready_tasks r.workflow) o
        → Concludes
            (λ e r'. Sound r' × Halted r e r')
            (λ x r'. Sound r' × Advanced r x r')
            (step_open o r)
    by_open e none all = (sound, (e, inl (all, refl, refl)))
    by_open e (some t) first =
        let may = MayComplete-of_FirstOpen r t first in
        Concludes-weaken (Fails r t may) (λ e r'. Sound r' × Halted r e r') (Succeeds r t may)
          (λ x r'. Sound r' × Advanced r x r') (step_task t r)
          (λ x r' (s, h). (s, inr (e, (t, first, h)))) (λ x r' (s, h). (s, (e, inr (t, first, h))))
          (step_task-Concludes r t may sound)

    by_pending :
        (p : Option (TaskAttempt × StreamItem RuntimeEvent))
        → r.pending_started ≡ p
        → Concludes (λ e r'. Sound r' × Halted r e r') (λ x r'. Sound r' × Advanced r x r') (step r)
    by_pending (some (attempt, item)) e =
        rw (step_retained r attempt item e) (sound, inl (attempt, item, e, refl, refl))
    by_pending none e = rw (step_unretained r e) (
        by_open e (first_open r (ready_tasks r.workflow))
          (first_open-Chooses r (ready_tasks r.workflow)))

Moves-of_TaskStepped :
    (r : Runtime) (t : Ident) (x : StepResult) (r' : Runtime)
    → TaskStepped r t x r'
    → Moves r.workflow x r'.workflow
Moves-of_TaskStepped r t (completed u a) r' (same, may, done, _, _) = (
  subst (MayComplete r.workflow) (sym same) may,
  subst (λ v. r'.workflow ≡ completing r.workflow v) (sym same) done,
)
Moves-of_TaskStepped r t (effect_pending _ _ _) r' (_, same, _, _) = same
Moves-of_TaskStepped r t (blocked _ (some _) _) r' (_, same, _, _) = same
Moves-of_TaskStepped r t (blocked _ none _) r' h = absurd h
Moves-of_TaskStepped r t idle r' h = absurd h

Moves-of_Advanced :
    (r : Runtime) (x : StepResult) (r' : Runtime) → Advanced r x r' → Moves r.workflow x r'.workflow
Moves-of_Advanced r x r' (_, inl (_, still, same)) = rw (still, same) refl
Moves-of_Advanced r x r' (_, inr (t, _, h)) = Moves-of_TaskStepped r t x r' h

-- What a step does to the workflow.
pub step-Stepped : (r : Runtime) → Sound r → Ends Sound (Stepped r.workflow) (step r)
step-Stepped r sound =
    Ends-of_Concludes (λ e r'. Sound r' × Halted r e r') Sound (λ x r'. Sound r' × Advanced r x r')
      (Stepped r.workflow) (step r) (λ _ _ h. h.0) (λ x r' (s, h). (s, Moves-of_Advanced r x r' h))
      (step_lem r sound)
