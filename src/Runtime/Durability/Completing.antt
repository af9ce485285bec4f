-- ===== src/Runtime/Durability/Completing.antt =====
-- `finish_task`.
use graph_core.Base.{◌≡◌, refl, ap, subst, ◌∙◌, sym, length}
use graph_core.Core.Ident.{Ident, ident_ord}
use graph_core.Workflow.Graph.{WorkflowGraph}
use graph_core.Workflow.Graph.Completion.{MayComplete, Reason}
use graph_core.Stream.Item.{StreamItem}
use graph_core.Recovery.Model.{AttemptId, operation_ord}
use graph_core.Runtime.State.{
  StepResult, completed, Runtime, RuntimeEvent, RuntimeError, workflow, stream,
  execution_backpressure, task_completed,
}
use graph_core.Runtime.Action.{◌>>◌, pure}
use graph_core.Runtime.Events.{emit_completed}
use graph_core.Runtime.Effects.{complete_task}
use graph_core.Runtime.Step.{finish_task}
use graph_core.Runtime.Durability.Sound.{Sound}
use graph_core.Workflow.Mutation.{
  WorkflowGraphError, unknown_task, task_already_completed, incomplete_prerequisite,
}
use graph_core.Runtime.Durability.Endings.{Concludes, Concludes-onward, Concludes-weaken}
use graph_core.Runtime.Durability.Finishing.{Kept, Finished, Unfinished, finish_lem}
use graph_core.Runtime.Durability.Scheduling.{completing, Heard, Unheard}

refused_MayComplete :
    (w : WorkflowGraph) (t : Ident) (x : WorkflowGraphError) → MayComplete w t → ¬ Reason w t x
refused_MayComplete w t (unknown_task _) may (_, h) = cc (may.0, h)
refused_MayComplete w t (task_already_completed _) may (_, h) = cc (may.1, h)
refused_MayComplete w t (incomplete_prerequisite _ d) may (_, at, h) = cc (may.2 d at, h)
refused_MayComplete w t _ may h = absurd h

-- The task is completed, and that is announced.
abbrev pub Done : WorkflowGraph → Runtime → Ident → AttemptId → StepResult → Runtime → Type 0
Done w m t a x r' = Kept m r' × (x ≡ completed t a) × (r'.workflow ≡ completing w t) × Heard t a r'

-- The task is completed, and that is not announced.
abbrev pub Missed : WorkflowGraph → Ident → RuntimeError → Runtime → Type 0
Missed w t e r' = Sound r' × (r'.workflow ≡ completing w t) × Unheard t e r'

module _ (t : Ident) (a : AttemptId) (m : Runtime) where
  Missed-of_Unfinished :
      (e : RuntimeError) (r' : Runtime)
      → MayComplete m.workflow t
      → Kept m r' × Unfinished m t a e r'
      → Missed m.workflow t e r'
  Missed-of_Unfinished (workflow x) r' may (k, (reason, _)) =
      absurd (refused_MayComplete m.workflow t x may reason)
  Missed-of_Unfinished (stream _) r' may (k, (_, (full, e))) = (
    k.sound,
    ap (λ (x : Runtime). x.workflow) e,
    ap (λ (x : Runtime). x.execution_sequencer.exhausted) e ∙ full,
  )
  Missed-of_Unfinished (execution_backpressure item) r' may (k, (_, (same, full, e))) = (
    k.sound,
    ap (λ (x : Runtime). x.workflow) e,
    (
      subst (λ b. length b.items ≡ b.capacity) (sym (ap (λ (x : Runtime). x.execution_events) e))
          full,
      (
        a,
        ap (λ (x : StreamItem RuntimeEvent). x.payload) same
            ∙ ap (λ (x : Runtime). task_completed x.run_id t a) (sym e),
      ),
    ),
  )
  Missed-of_Unfinished _ r' may (k, (_, h)) = absurd h

  Done-of_Finished :
      (r' : Runtime) → Kept m r' × Finished m t a r' → Done m.workflow m t a (completed t a) r'
  Done-of_Finished r' (k, (_, e)) = (
    k,
    refl,
    ap (λ (x : Runtime). x.workflow) e,
    (
      m.execution_events.items,
      _,
      ap (λ (x : Runtime). x.execution_events.items) e,
      ap (λ (x : Runtime). task_completed x.run_id t a) (sym e),
    ),
  )

  pub finish_task-Concludes :
      (w : WorkflowGraph)
      → m.workflow ≡ w
      → Sound m
      → MayComplete w t
      → Concludes (Missed w t) (Done w m t a) (finish_task t a m)
  unfolding finish_task
  finish_task-Concludes w same sound =
      subst (λ w. MayComplete w t → Concludes (Missed w t) (Done w m t a) (finish_task t a m)) same
        (λ may.
          Concludes-onward (Missed m.workflow t) (λ _ r'. Kept m r' × Finished m t a r')
            (Done m.workflow m t a) ((complete_task t >> emit_completed t a) m)
            (λ _. pure (completed t a))
            (Concludes-weaken (λ e r'. Kept m r' × Unfinished m t a e r') (Missed m.workflow t)
              (λ _ r'. Kept m r' × Finished m t a r') (λ _ r'. Kept m r' × Finished m t a r') _
              (λ e r'. Missed-of_Unfinished e r' may) (λ _ _ h. h) (finish_lem t a m sound))
            (λ _ r'. Done-of_Finished r'))
