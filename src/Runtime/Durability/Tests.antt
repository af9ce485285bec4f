-- ===== src/Runtime/Durability/Tests.antt =====
-- The theorems about crates/runtime-core/src/lib.rs at a concrete run.
use graph_core.Base.{◌≡◌, refl, true, [], ◌∷◌, ◌++◌, none, some, arith, List}
use graph_core.Base.Results.{ok, err}
use graph_core.Base.BTreeMap.{contains_key}
use graph_core.Core.Ident.{ident_ord}
use graph_core.Stream.Item.{StreamItem}
use graph_core.Recovery.Model.{succeeded}
use graph_core.Runtime.State.{
  Runtime, RuntimeEvent, task_started, TaskAttempt, execution_backpressure,
}
use graph_core.Runtime.Events.{
  drain_execution_events, drain_progress_events, drain_telemetry_events, retry_execution_event,
}
use graph_core.Runtime.Effects.{dispatch_effect, recover, cancel_task}
use graph_core.Runtime.Step.{step, run_until_blocked}
use graph_core.Runtime.Delivery.{drain_events_lem, retry_after_drain}
use graph_core.Runtime.Tests.{
  fetch, charge, payment, run_id, workflow, no_capabilities, configs, begun, begun_started,
  first_attempt, second_attempt,
}
use graph_core.Runtime.Durability.Sound.{Sound, Ends}
use graph_core.Runtime.Durability.Calm.{Calm}
use graph_core.Recovery.Durable.State
use graph_core.Recovery.Durable.Facts.{AttemptAdmission}
use graph_core.Runtime.Durability.Dispatch.{Dispatched, dispatch_effect_lem}
use graph_core.Runtime.Durability.Endings.{Concludes}
use graph_core.Runtime.Durability.Finishing.{Kept}
use graph_core.Runtime.Durability.Scheduling.{Halted, Advanced}
use graph_core.Runtime.Durability.Recovery.{Recovered, Unrecovered, recover_lem}
use graph_core.Runtime.Durability.Cancelling.{Reports, cancel_task_lem}
use graph_core.Runtime.Durability.Steps.{step_lem}
use graph_core.Runtime.Durability.Rounds.{Rounds, run_until_blocked_lem}
use graph_core.Runtime.Durability.Reachable.{
  Reachable, started, called, after, dispatch, settle, run, Reachable-Sound,
}

-- The plain task is completed, and the effect of the other is prepared.
waiting : Runtime
waiting = after run begun

paying : Runtime
paying = after (dispatch payment) waiting

paid : Runtime
paid = after (settle payment second_attempt succeeded) paying

begun-Reachable : Reachable begun
begun-Reachable = started run_id workflow no_capabilities configs begun_started

waiting-Reachable : Reachable waiting
unfolding waiting
waiting-Reachable = called run begun-Reachable

paying-Reachable : Reachable paying
unfolding paying
paying-Reachable = called (dispatch payment) waiting-Reachable

paid-Reachable : Reachable paid
unfolding paid
paid-Reachable = called (settle payment second_attempt succeeded) paying-Reachable

Reachable-Sound_example : Sound paid
Reachable-Sound_example = Reachable-Sound paid-Reachable

dispatch_effect_lem_example :
    Ends (Calm waiting) (Dispatched waiting payment) (dispatch_effect payment waiting)
dispatch_effect_lem_example =
    dispatch_effect_lem waiting payment (Reachable-Sound waiting-Reachable)

recover_lem_example :
    Concludes
      (λ e r'. Kept paid r' × Unrecovered paid payment e r')
      (λ d r'. Kept paid r' × Recovered paid payment d r')
      (recover payment paid)
recover_lem_example = recover_lem paid payment (Reachable-Sound paid-Reachable)

cancel_task_lem_example :
    Ends
      (λ r'. r' ≡ paying)
      (λ x r'.
        Reports paying charge x
        × Sound r'
        × (contains_key charge r'.cancelled ≡ true)
        × (r'.journal ≡ paying.journal)
        × (r'.workflow ≡ paying.workflow))
      (cancel_task charge paying)
cancel_task_lem_example = cancel_task_lem paying charge (Reachable-Sound paying-Reachable)

step_lem_example :
    Concludes
      (λ e r'. Sound r' × Halted paid e r')
      (λ x r'. Sound r' × Advanced paid x r')
      (step paid)
step_lem_example = step_lem paid (Reachable-Sound paid-Reachable)

run_until_blocked_lem_example :
    Ends Sound
      (λ results t. Sound t × Rounds begun.workflow results t.workflow)
      (run_until_blocked begun)
run_until_blocked_lem_example = run_until_blocked_lem begun (Reachable-Sound begun-Reachable)

abbrev admissions : List AttemptAdmission
admissions = State.attempts (Reachable-Sound paying-Reachable).run

abbrev attempt : TaskAttempt
attempt = record {
  run_id = run_id;
  task_id = fetch;
  attempt_id = first_attempt;
  operation_id = none;
  capability_pins = [];
}

abbrev announcement : StreamItem RuntimeEvent
announcement = record {
  stream_id = begun.execution_sequencer.stream_id;
  sequence = record { value = 0 };
  payload = task_started run_id fetch first_attempt;
}

abbrev retaining : Runtime
retaining = record begun { pending_started = some (attempt, announcement) }

drain_events_lem_example :
    (drain_execution_events waiting ≡ (
      record waiting { execution_events = record (waiting.execution_events) { items = [] } },
      ok waiting.execution_events.items,
    ))
    × (drain_progress_events waiting ≡ (
      record waiting { progress_events = record (waiting.progress_events) { items = [] } },
      ok waiting.progress_events.items,
    ))
    × (drain_telemetry_events waiting ≡ (
      record waiting { telemetry_events = record (waiting.telemetry_events) { items = [] } },
      ok waiting.telemetry_events.items,
    ))
drain_events_lem_example = drain_events_lem waiting

retry_after_drain_example :
    (step retaining ≡ (retaining, err (execution_backpressure announcement)))
    × (retry_execution_event announcement (drain_execution_events retaining).0 ≡ (
      record retaining {
        execution_events = record (retaining.execution_events) { items = announcement ∷ [] };
        attempts = retaining.attempts ++ attempt ∷ [];
        pending_started = none;
      },
      ok tt,
    ))
retry_after_drain_example =
    retry_after_drain retaining attempt announcement announcement refl (omega arith)
