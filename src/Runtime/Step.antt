-- ===== src/Runtime/Step.antt =====
-- The scheduler: `step_task`, `step` and `run_until_blocked`.
use graph_core.Base.{
  ℕ, zero, suc, Bool, true, false, List, [], ◌∷◌, Option, none, some, length, if◌then◌else◌,
}
use graph_core.Base.Results.{ok, panic, out_of_fuel}
use graph_core.Base.BTreeMap.{get, contains_key}
use graph_core.Core.Ident.{Ident, ident_ord}
use graph_core.Workflow.Graph.{ready_tasks}
use graph_core.Recovery.Model.{
  OperationId, AttemptId, EffectSemantics, succeeded, failed, RecoveredEffectState, prepared,
  outcome_unknown, outcome_known, not_prepared, observe_failure,
}
use graph_core.Recovery.Journal.{intent, state, operation_for_task, known_outcome}
use graph_core.Recovery.Decision.{classify_recovery}
use graph_core.Runtime.Config.{EffectSpec}
use graph_core.Runtime.State.{
  StepResult, completed, effect_pending, blocked, idle, Runtime, journal, execution_backpressure,
}
use graph_core.Runtime.Action.{Action, onward, ◌>>=◌, ◌>>◌, pure, fail, gets, expects}
use graph_core.Runtime.Commit.{record_effect_intent}
use graph_core.Runtime.Attempts.{attempt_for_task, pending_attempt, or_begin}
use graph_core.Runtime.Events.{emit_completed}
use graph_core.Runtime.Effects.{complete_task}

unfoldable pub configured_effect : Runtime → Ident → Option EffectSpec
configured_effect r task_id = elim (get task_id r.task_configs) [
  | none ↦ none
  | some config ↦ config.effect
]

-- The effect of the configuration, recorded if there is one.
unfoldable pub record_configured :
    Ident → Option EffectSpec → Action (Option (OperationId × EffectSemantics))
record_configured task_id none = pure none
record_configured task_id (some effect) = do
  record_effect_intent task_id effect.operation_id effect.semantics
  pure (some (effect.operation_id, effect.semantics))

unfoldable pub ensure_configured_effect : Ident → Action (Option (OperationId × EffectSemantics))
ensure_configured_effect task_id r = elim (operation_for_task r.journal task_id) [
  | some operation_id ↦
      (gets journal (λ r. intent r.journal operation_id) >>= λ i.
      pure (some (operation_id, i.semantics)))
        r
  | none ↦ record_configured task_id (configured_effect r task_id) r
]

-- `self.workflow.complete(..)?; self.emit_completed(..)?`.
unfoldable pub finish_task : Ident → AttemptId → Action StepResult
finish_task task_id attempt_id =
    complete_task task_id
    >> emit_completed task_id attempt_id
    >> pure (completed task_id attempt_id)

unfoldable pub step_plain : Ident → Action StepResult
step_plain task_id r =
    (or_begin (attempt_for_task r task_id none) task_id none >>= finish_task task_id) r

-- The `match` on the state of the task's effect.
unfoldable pub step_effect : Ident → OperationId → RecoveredEffectState → Action StepResult
step_effect task_id operation_id prepared r =
    (or_begin (pending_attempt r task_id operation_id) task_id (some operation_id) >>= λ attempt_id.
    pure (effect_pending task_id attempt_id operation_id))
      r
step_effect task_id operation_id outcome_unknown r =
    (gets journal (λ r. classify_recovery r.workflow r.journal operation_id) >>= λ decision.
    pure (blocked task_id (some operation_id) decision.action))
      r
step_effect task_id operation_id (outcome_known succeeded) r =
    (expects (λ r. known_outcome r.journal operation_id) >>= λ outcome.
    finish_task task_id outcome.attempt_id)
      r
step_effect task_id operation_id (outcome_known failed) r =
    pure (blocked task_id (some operation_id) observe_failure) r
step_effect task_id operation_id not_prepared r = (r, panic)

unfoldable pub step_with : Ident → Option (OperationId × EffectSemantics) → Action StepResult
step_with task_id none = step_plain task_id
step_with task_id (some (operation_id, _)) =
    λ r. step_effect task_id operation_id (state r.journal operation_id) r

unfoldable pub step_task : Ident → Action StepResult
step_task task_id = ensure_configured_effect task_id >>= step_with task_id

-- The loop over the ready tasks: the first that is not cancelled.
unfoldable pub first_open : Runtime → List Ident → Option Ident
first_open r [] = none
first_open r (task_id ∷ task_ids) =
    if contains_key task_id r.cancelled then first_open r task_ids else some task_id

unfoldable pub step_open : Option Ident → Action StepResult
step_open none = pure idle
step_open (some task_id) = step_task task_id

unfoldable pub step : Action StepResult
step r = elim r.pending_started [
  | some (_, item) ↦ fail (execution_backpressure item) r
  | none ↦ step_open (first_open r (ready_tasks r.workflow)) r
]

-- `!matches!(result, StepResult::Completed { .. })`.
abbrev pub stops : StepResult → Bool
stops (completed _ _) = false
stops _ = true

-- The loop of `run_until_blocked`; the fuel bounds its rounds. `results` are those so far.
unfoldable pub run_from : ℕ → Action (List StepResult)
run_from zero r = (r, out_of_fuel)
run_from (suc fuel) r = onward (step r).0 (step r).1 (λ result s. elim (stops result) [
  | true ↦ (s, ok (result ∷ []))
  | false ↦ (run_from fuel >>= λ results. pure (result ∷ results)) s
])

-- Each round but the last completes a task.
unfoldable pub run_until_blocked : Action (List StepResult)
run_until_blocked r = run_from (suc (length r.workflow.topology.tasks)) r
