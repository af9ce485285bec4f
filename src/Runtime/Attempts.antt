-- ===== src/Runtime/Attempts.antt =====
-- `begin_attempt` and the lookup of a task's attempt.
use graph_core.Base.{ℕ, Bool, ◌&&◌, List, [], ◌∷◌, ◌++◌, Option, none, some, map, if◌then◌else◌}
use graph_core.Base.Results.{Result, ok, err}
use graph_core.Base.Texts.{codes, decimal}
use graph_core.Base.Words.{checked_add}
use graph_core.Base.Order.{◌==◌}
use graph_core.Core.Ident.{Text, Ident, ident_ord}
use graph_core.Recovery.Model.{OperationId, operation_ord, AttemptId, attempt_id_new}
use graph_core.Recovery.Durable.Facts.{RunId, AttemptAdmission, admit_attempt}
use graph_core.Recovery.Durable.Mutation.{same_operation}
use graph_core.Runtime.State.{
  CapabilityPin, TaskAttempt, task_started, Runtime, RuntimeError, attempt_id_exhausted,
}
use graph_core.Runtime.Action.{Action, ◌>>=◌, ◌>>◌, pure, gets, unwrapped, map_ok}
use graph_core.Runtime.Commit.{commit_durable}
use graph_core.Runtime.Pins.{capture_capability_pins}
use graph_core.Runtime.Events.{emit_execution, enqueue_execution, settle_started}
use mathlib.Core.List.{reverse}

-- The closures of `attempt_for_task`: the same task and the same optional operation.
abbrev pub is_attempt_of : Ident → Option OperationId → TaskAttempt → Bool
is_attempt_of task_id operation_id attempt =
    attempt.task_id == task_id && same_operation attempt.operation_id operation_id

-- `iter().find(..)`, mapped to the attempt's identity.
unfoldable pub find_attempt : (TaskAttempt → Bool) → List TaskAttempt → Option AttemptId
find_attempt p [] = none
find_attempt p (attempt ∷ attempts) =
    if p attempt then some attempt.attempt_id else find_attempt p attempts

unfoldable pub attempt_for_task : Runtime → Ident → Option OperationId → Option AttemptId
attempt_for_task r task_id operation_id =
    let p = is_attempt_of task_id operation_id in
    let started = find_attempt p (reverse r.attempts) in
    elim r.pending_started [
      | none ↦ started
      | some (attempt, _) ↦ if p attempt then some attempt.attempt_id else started
    ]

unfoldable pub pending_attempt : Runtime → Ident → OperationId → Option AttemptId
pending_attempt r task_id operation_id = attempt_for_task r task_id (some operation_id)

-- `format!("{}-attempt-{attempt_number}", self.run_id)`.
abbrev pub attempt_text : RunId → ℕ → Text
attempt_text run_id attempt_number =
    run_id.id.value ++ (codes "-attempt-" ++ decimal attempt_number)

abbrev pub admission_of : TaskAttempt → AttemptAdmission
admission_of attempt = record {
  run_id = attempt.run_id;
  task_id = attempt.task_id;
  attempt_id = attempt.attempt_id;
  operation_id = attempt.operation_id;
  capabilities = map (λ (pin : CapabilityPin). pin.replay_identity) attempt.capability_pins;
}

unfoldable pub advance_attempt_number : Action (Unit {0})
advance_attempt_number r = elim (checked_add r.next_attempt_number 1) [
  | none ↦ (r, err attempt_id_exhausted)
  | some n ↦ (record r { next_attempt_number = n }, ok tt)
]

unfoldable pub announce_started : TaskAttempt → Action AttemptId
announce_started attempt = do
  item ← λ r. emit_execution (task_started r.run_id attempt.task_id attempt.attempt_id) r
  λ r. settle_started attempt (enqueue_execution item r)

-- The attempt of the next number.
unfoldable pub new_attempt :
    Ident → Option OperationId → List CapabilityPin → Runtime → Result RuntimeError TaskAttempt
new_attempt task_id operation_id capability_pins r =
    map_ok
      (λ attempt_id. record {
        run_id = r.run_id;
        task_id = task_id;
        attempt_id = attempt_id;
        operation_id = operation_id;
        capability_pins = capability_pins;
      })
      (unwrapped (attempt_id_new (attempt_text r.run_id r.next_attempt_number)))

unfoldable pub begin_attempt : Ident → Option OperationId → Action AttemptId
begin_attempt task_id operation_id = do
  capability_pins ← gets (λ e. e) (capture_capability_pins task_id none)
  attempt ← gets (λ e. e) (new_attempt task_id operation_id capability_pins)
  _ ←
      commit_durable (codes "admit:" ++ attempt.attempt_id.id.value)
        (admit_attempt (admission_of attempt) ∷ [])
  advance_attempt_number
  announce_started attempt

-- `map_or_else(|| self.begin_attempt(..), Ok)`.
abbrev pub or_begin : Option AttemptId → Ident → Option OperationId → Action AttemptId
or_begin (some attempt_id) task_id operation_id = pure attempt_id
or_begin none task_id operation_id = begin_attempt task_id operation_id
