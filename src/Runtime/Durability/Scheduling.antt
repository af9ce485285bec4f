-- ===== src/Runtime/Durability/Scheduling.antt =====
-- Which task a step of the scheduler takes, and how the step can end.
use graph_core.Base.{
  ◌≡◌, refl, ◌⊎◌, inl, inr, true, false, List, [], ◌∷◌, ◌++◌, Option, none, some, Memᴰ, length,
  Bool-cases,
}
use graph_core.Base.Results.{ok}
use graph_core.Base.BTreeMap.{contains_key}
use graph_core.Core.Ident.{Ident, ident_ord}
use graph_core.Stream.Item.{StreamItem}
use graph_core.Workflow.Graph.{WorkflowGraph, record_completion, ready_tasks}
use graph_core.Workflow.Graph.Completion.{MayComplete}
use graph_core.Recovery.Model.{
  OperationId, AttemptId, RecoveryAction, RecoveryDecision, succeeded, failed, prepared,
  outcome_unknown, outcome_known, observe_failure,
}
use graph_core.Recovery.Journal.{state, operation_for_task}
use graph_core.Recovery.Decision.{classify_recovery}
use graph_core.Runtime.State.{
  StepResult, completed, effect_pending, blocked, idle, Runtime, RuntimeError, RuntimeEvent,
  TaskAttempt, task_completed, stream, execution_backpressure,
}
use graph_core.Runtime.Step.{configured_effect, first_open}
use mathlib.Core.List.Memᴰ

-- The workflow with the task completed.
abbrev pub completing : WorkflowGraph → Ident → WorkflowGraph
completing w task_id = record w { facts = record_completion w.facts task_id }

-- The first of the ready tasks that is not cancelled.
pub record FirstOpen (r : Runtime) (ready : List Ident) (t : Ident) : Type 0 where
  pub before : List Ident
  pub later : List Ident
  pub place : ready ≡ before ++ t ∷ later
  pub passed : (u : Ident) → Memᴰ u before → contains_key u r.cancelled ≡ true
  pub open_task : contains_key t r.cancelled ≡ false

abbrev pub AllCancelled : Runtime → List Ident → Type 0
AllCancelled r ready = (u : Ident) → Memᴰ u ready → contains_key u r.cancelled ≡ true

abbrev pub Chooses : Runtime → List Ident → Option Ident → Type 0
Chooses r ready none = AllCancelled r ready
Chooses r ready (some t) = FirstOpen r ready t

-- The announcement of a completion is the last item that is pending.
abbrev pub Heard : Ident → AttemptId → Runtime → Type 0
Heard t a r =
    (items : List (StreamItem RuntimeEvent)) × (item : StreamItem RuntimeEvent)
    × (r.execution_events.items ≡ items ++ item ∷ [])
    × (item.payload ≡ task_completed r.run_id t a)

-- The announcement of a completion found the stream exhausted, or its buffer full.
abbrev pub Unheard : Ident → RuntimeError → Runtime → Type 0
Unheard t (stream _) r = r.execution_sequencer.exhausted ≡ true
Unheard t (execution_backpressure item) r =
    (length r.execution_events.items ≡ r.execution_events.capacity)
    × ((a : AttemptId) × (item.payload ≡ task_completed r.run_id t a))
Unheard t _ r = ⊥

-- The task has no effect.
abbrev pub IsPlain : Runtime → Ident → Type 0
IsPlain r t = (operation_for_task r.journal t ≡ none) × (configured_effect r t ≡ none)

-- The operation is the one that is recorded for the task.
abbrev pub Known : Runtime → Ident → OperationId → Type 0
Known r t op = operation_for_task r.journal t ≡ some op

-- What blocks the task on its effect, and is reported as what is to be done.
abbrev pub Blocks : Runtime → OperationId → RecoveryAction → Type 0
Blocks r op action =
    ((state r.journal op ≡ outcome_unknown)
      × ((d : RecoveryDecision) × (classify_recovery r.workflow r.journal op ≡ ok d)
          × (action ≡ d.action)))
    ⊎ ((state r.journal op ≡ outcome_known failed) × (action ≡ observe_failure))

-- What the step of a task reports, between the runtimes before and after.
abbrev pub TaskStepped : Runtime → Ident → StepResult → Runtime → Type 0
TaskStepped r t (completed u a) r' =
    (u ≡ t)
    × MayComplete r.workflow t
    × (r'.workflow ≡ completing r.workflow t)
    × Heard t a r'
    × (IsPlain r t
        ⊎ ((op : OperationId) × Known r' t op × (state r'.journal op ≡ outcome_known succeeded)))
TaskStepped r t (effect_pending u _ op) r' =
    (u ≡ t) × (r'.workflow ≡ r.workflow) × Known r' t op × (state r'.journal op ≡ prepared)
TaskStepped r t (blocked u (some op) action) r' =
    (u ≡ t) × (r'.workflow ≡ r.workflow) × Known r' t op × Blocks r' op action
TaskStepped r t (blocked u none _) r' = ⊥
TaskStepped r t idle r' = ⊥

-- How the step of a task fails: before it has an effect or with the effect prepared, and then the
-- workflow is as it was; or with the task completed, but not announced.
abbrev pub TaskFailed : Runtime → Ident → RuntimeError → Runtime → Type 0
TaskFailed r t e r' =
    ((r'.workflow ≡ r.workflow)
      × ((operation_for_task r.journal t ≡ none)
          ⊎ ((op : OperationId) × Known r t op × (state r.journal op ≡ prepared))))
    ⊎ (MayComplete r.workflow t × (r'.workflow ≡ completing r.workflow t) × Unheard t e r')

-- What a step reports.
abbrev pub Advanced : Runtime → StepResult → Runtime → Type 0
Advanced r x r' =
    (r.pending_started ≡ none)
    × ((AllCancelled r (ready_tasks r.workflow) × (x ≡ idle) × (r' ≡ r))
        ⊎ ((t : Ident) × FirstOpen r (ready_tasks r.workflow) t × TaskStepped r t x r'))

-- How a step fails: an attempt is retained, or the step of the task fails.
abbrev pub Halted : Runtime → RuntimeError → Runtime → Type 0
Halted r e r' =
    ((attempt : TaskAttempt) × (item : StreamItem RuntimeEvent) × (r.pending_started
        ≡ some (attempt, item))
      × (e ≡ execution_backpressure item)
      × (r' ≡ r))
    ⊎ ((r.pending_started ≡ none)
        × ((t : Ident) × FirstOpen r (ready_tasks r.workflow) t × TaskFailed r t e r'))

pub first_open-Chooses : (r : Runtime) (ready : List Ident) → Chooses r ready (first_open r ready)
unfolding first_open
first_open-Chooses r [] = λ u m. absurd (Memᴰ.not-nil m)
first_open-Chooses r (t ∷ ts) = elim (Bool-cases (contains_key t r.cancelled)) [
  | inr e ↦
      rw (e, first_open)
        (record {
          before = [];
          later = ts;
          place = refl;
          passed = λ u m. absurd (Memᴰ.not-nil m);
          open_task = e;
        })
  | inl e ↦ rw (e, first_open) (later (first_open r ts) (first_open-Chooses r ts) e)
]
  where
    passes :
        (xs : List Ident)
        → ((u : Ident) → Memᴰ u xs → contains_key u r.cancelled ≡ true)
        → contains_key t r.cancelled ≡ true
        → (u : Ident) → Memᴰ u (t ∷ xs)
        → contains_key u r.cancelled ≡ true
    passes xs h e u m = elim (Memᴰ.cases_cons m) [ inl s ↦ rw s e | inr n ↦ h u n ]

    later :
        (o : Option Ident)
        → Chooses r ts o
        → contains_key t r.cancelled ≡ true
        → Chooses r (t ∷ ts) o
    later none h e = passes ts h e
    later (some u) h e = record {
      before = t ∷ h.before;
      later = h.later;
      place = cc (h.place);
      passed = passes h.before h.passed e;
      open_task = h.open_task;
    }
