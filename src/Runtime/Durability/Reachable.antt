-- ===== src/Runtime/Durability/Reachable.antt =====
-- The invariant holds in every state that a client of the runtime can reach.
use graph_core.Base.{
  ℕ, ◌≡◌, refl, true, subst, inl, inr, List, Option, none, some, is_some, arith, Bool-cases,
}
use graph_core.Base.Results.{Result, ok, err, panic, out_of_fuel}
use graph_core.Core.Ident.{Text, Ident, ident_ord}
use graph_core.Core.Revision.{Revision}
use graph_core.Stream.Item.{StreamItem}
use graph_core.Workflow.Topology.{task}
use graph_core.Workflow.Mutation.{MutationBatch}
use graph_core.Workflow.Graph.{WorkflowGraph}
use graph_core.Recovery.Model.{
  OperationId, AttemptId, EffectSemantics, KnownEffectOutcome, operation_ord, EffectIntent,
}
use graph_core.Base.BTreeMap.{get, contains_key}
use graph_core.Recovery.Durable.Facts.{RunId}
use graph_core.Runtime.Config.{TaskConfig}
use graph_core.Runtime.State.{Runtime, RuntimeEvent, TaskAttempt, RuntimeError}
use graph_core.Runtime.Action.{Outcome, Action, onward}
use graph_core.Runtime.Commit.{record_effect_intent, record_effect_outcome}
use graph_core.Runtime.Events.{
  enqueue_execution, push_progress, emit_progress, emit_telemetry, drain_execution_events,
  drain_progress_events, drain_telemetry_events, settle_retry, retry_execution_event,
}
use graph_core.Runtime.Effects.{dispatch_effect, recover, cancel_task}
use graph_core.Runtime.Step.{step, run_until_blocked}
use graph_core.Runtime.Start.{
  Context, start_run, restore_run, configure_task, apply_workflow_mutation,
}
use graph_core.Runtime.Durability.Sound.{Sound, Ends, OnlyFacts}
use graph_core.Runtime.Durability.Calm.{Calm, enqueue-Ends}
use graph_core.Recovery.Durable.State
use graph_core.Runtime.Durability.Refusals.{Gives}
use graph_core.Runtime.Durability.Readmission.{ConfigRefused}
use graph_core.Runtime.Durability.Built.{Started, start_run-Gives}
use graph_core.Runtime.Durability.Effects.{record_effect_intent-Ends, record_effect_outcome-Ends}
use graph_core.Runtime.Durability.Dispatch.{Dispatched, dispatch_effect_lem}
use graph_core.Runtime.Durability.Endings.{Concludes}
use graph_core.Runtime.Durability.Finishing.{Kept}
use graph_core.Runtime.Durability.Recovery.{Recovered, Unrecovered, recover_lem}
use graph_core.Runtime.Durability.Cancelling.{Reports, cancel_task_lem}
use graph_core.Runtime.Durability.Steps.{Stepped, step-Stepped}
use graph_core.Runtime.Durability.Rounds.{Rounds, run_until_blocked_lem}
use graph_core.Runtime.Durability.Restart.{RestoreRefused, Restored, restore_run_lem}

-- The calls that a client can make of a runtime.
pub data Call : Type 0 where
  configure : (task_id : Ident) (config : TaskConfig) → Call
  mutate : (expected_revision : Revision) (batch : MutationBatch) → Call
  intend : (task_id : Ident) (op : OperationId) (semantics : EffectSemantics) → Call
  dispatch : (op : OperationId) → Call
  settle : (op : OperationId) (attempt_id : AttemptId) (outcome : KnownEffectOutcome) → Call
  recover_effect : (op : OperationId) → Call
  cancel : (task_id : Ident) → Call
  advance : Call
  run : Call
  report_progress : (task_id : Ident) (progress : ℕ) → Call
  report_telemetry : (message : Text) → Call
  drain_execution : Call
  drain_progress : Call
  drain_telemetry : Call
  retry : (item : StreamItem RuntimeEvent) → Call

-- The runtime after the call, whatever it answered.
unfoldable pub after : Call → Runtime → Runtime
after (configure t c) r = (configure_task t c r).0
after (mutate v b) r = (apply_workflow_mutation v b r).0
after (intend t op x) r = (record_effect_intent t op x r).0
after (dispatch op) r = (dispatch_effect op r).0
after (settle op a x) r = (record_effect_outcome op a x r).0
after (recover_effect op) r = (recover op r).0
after (cancel t) r = (cancel_task t r).0
after advance r = (step r).0
after run r = (run_until_blocked r).0
after (report_progress t n) r = (emit_progress t n r).0
after (report_telemetry m) r = (emit_telemetry m r).0
after drain_execution r = (drain_execution_events r).0
after drain_progress r = (drain_progress_events r).0
after drain_telemetry r = (drain_telemetry_events r).0
after (retry item) r = (retry_execution_event item r).0

-- Runs that were started, used, had the capabilities around them changed, and were restarted from
-- their store.
pub data Reachable : Runtime → Type 0 where
  started :
      (run_id : RunId) (w : WorkflowGraph) (context : Context) (configs : List (Ident × TaskConfig))
      {r : Runtime}
      → start_run run_id w context configs ≡ ok r
      → Reachable r
  called : {r : Runtime} (c : Call) → Reachable r → Reachable (after c r)
  changed :
      {r : Runtime} (context : Context) → Reachable r → Reachable (record r { context = context })
  restarted :
      (r : Runtime) {r' : Runtime} (w : WorkflowGraph) (context : Context)
      (configs : List (Ident × TaskConfig))
      → Reachable r
      → restore_run r.run_id w context configs r.store ≡ ok r'
      → Reachable r'

module _ {A : Type 0} where
  kept_by :
      (P : Runtime → Type 0) (Q : A → Runtime → Type 0) (o : Outcome A)
      → Ends P Q o
      → ((r : Runtime) → P r → Sound r)
      → ((a : A) (r : Runtime) → Q a r → Sound r)
      → Sound o.0
  kept_by P Q (r, ok a) h f g = g a r h
  kept_by P Q (r, err _) h f g = f r h
  kept_by P Q (r, panic) h f g = absurd h
  kept_by P Q (r, out_of_fuel) h f g = absurd h

  concluded_by :
      (P : RuntimeError → Runtime → Type 0) (Q : A → Runtime → Type 0) (o : Outcome A)
      → Concludes P Q o
      → ((e : RuntimeError) (r : Runtime) → P e r → Sound r)
      → ((a : A) (r : Runtime) → Q a r → Sound r)
      → Sound o.0
  concluded_by P Q (r, ok a) h f g = g a r h
  concluded_by P Q (r, err e) h f g = f e r h
  concluded_by P Q (r, panic) h f g = absurd h
  concluded_by P Q (r, out_of_fuel) h f g = absurd h

  given_by :
      (E : RuntimeError → Type 0) (P : A → Type 0) (x : Result RuntimeError A) (a : A)
      → Gives E P x
      → x ≡ ok a
      → P a
  given_by E P (ok b) a h e = subst P (ground arith) h
  given_by E P (err _) a h e = absurd (ground arith)
  given_by E P panic a h e = absurd (ground arith)
  given_by E P out_of_fuel a h e = absurd (ground arith)

  onward-Sound :
      {B : Type 0} (r : Runtime) (x : Result RuntimeError A) (f : A → Action B)
      → Sound r
      → ((a : A) (r : Runtime) → Sound r → Sound (f a r).0)
      → Sound (onward r x f).0
  onward-Sound r (ok a) f sound k = k a r sound
  onward-Sound r (err _) f sound k = sound
  onward-Sound r panic f sound k = sound
  onward-Sound r out_of_fuel f sound k = sound

settle_retry-Sound :
    (attempt : TaskAttempt) (item : StreamItem RuntimeEvent) (o : Outcome (Unit {0}))
    → Sound o.0
    → Sound (settle_retry attempt item o).0
settle_retry-Sound attempt item (r, ok _) sound = sound
settle_retry-Sound attempt item (r, err _) sound = sound
settle_retry-Sound attempt item (r, panic) sound = sound
settle_retry-Sound attempt item (r, out_of_fuel) sound = sound

retry-Sound :
    (item : StreamItem RuntimeEvent) (r : Runtime)
    → Sound r
    → Sound (retry_execution_event item r).0
unfolding retry_execution_event
retry-Sound item r sound = by_pending r.pending_started refl
  where
    enqueue-Sound :
        (item : StreamItem RuntimeEvent) (r : Runtime)
        → Sound r
        → Sound (enqueue_execution item r).0
    enqueue-Sound item r sound =
        kept_by Sound (λ _. Sound) (enqueue_execution item r)
          (enqueue-Ends Sound item r (λ b. sound)) (λ _ s. s) (λ _ _ s. s)

    by_pending :
        (p : Option (TaskAttempt × StreamItem RuntimeEvent))
        → r.pending_started ≡ p
        → Sound (retry_execution_event item r).0
    by_pending none e = rw (e, retry_execution_event) (enqueue-Sound item r sound)
    by_pending (some (attempt, pending)) e =
        rw (e, retry_execution_event)
          (settle_retry-Sound attempt pending _
            (enqueue-Sound pending (record r { pending_started = none }) sound))

configure-Sound :
    (t : Ident) (c : TaskConfig) (r : Runtime) → Sound r → Sound (configure_task t c r).0
unfolding configure_task
configure-Sound t c r sound = elim (Bool-cases (is_some (task r.workflow.topology t))) [
  | inl e ↦ rw (e, configure_task) sound
  | inr e ↦ rw (e, configure_task) sound
]

call-Sound : (c : Call) (r : Runtime) → Sound r → Sound (after c r)
unfolding after apply_workflow_mutation emit_progress push_progress emit_telemetry
    drain_execution_events drain_progress_events drain_telemetry_events
call-Sound (configure t c) r sound = configure-Sound t c r sound
call-Sound (mutate v b) r sound = sound
call-Sound (intend t op x) r sound =
    let i : EffectIntent = record { task_id = t; operation_id = op; semantics = x } in
    kept_by (λ r'. r' ≡ r)
      (λ _ r'. Sound r' × (get op r'.journal.intents ≡ some i) × OnlyFacts r r')
      (record_effect_intent t op x r) (record_effect_intent-Ends r sound t op x) (λ _ e. rw e sound)
      (λ _ _ h. h.0)
call-Sound (dispatch op) r sound =
    kept_by (Calm r) (Dispatched r op) (dispatch_effect op r) (dispatch_effect_lem r op sound)
      (λ _ h. h.0) (λ _ _ h. h.sound)
call-Sound (settle op a x) r sound =
    kept_by (λ r'. r' ≡ r) (λ _ r'. Sound r' × OnlyFacts r r') (record_effect_outcome op a x r)
      (record_effect_outcome-Ends r sound op a x) (λ _ e. rw e sound) (λ _ _ h. h.0)
call-Sound (recover_effect op) r sound =
    concluded_by (λ e r'. Kept r r' × Unrecovered r op e r')
      (λ d r'. Kept r r' × Recovered r op d r') (recover op r) (recover_lem r op sound)
      (λ _ _ h. h.0.sound) (λ _ _ h. h.0.sound)
call-Sound (cancel t) r sound =
    kept_by (λ r'. r' ≡ r)
      (λ x r'.
        Reports r t x
        × Sound r'
        × (contains_key t r'.cancelled ≡ true)
        × (r'.journal ≡ r.journal)
        × (r'.workflow ≡ r.workflow))
      (cancel_task t r) (cancel_task_lem r t sound) (λ _ e. rw e sound) (λ _ _ h. h.1)
call-Sound advance r sound =
    kept_by Sound (Stepped r.workflow) (step r) (step-Stepped r sound) (λ _ h. h) (λ _ _ h. h.0)
call-Sound run r sound =
    kept_by Sound (λ xs t. Sound t × Rounds r.workflow xs t.workflow) (run_until_blocked r)
      (run_until_blocked_lem r sound) (λ _ h. h) (λ _ _ h. h.0)
call-Sound (report_progress t n) r sound = onward-Sound _ _ _ sound (λ _ _ s. s)
call-Sound (report_telemetry m) r sound = onward-Sound _ _ _ sound (λ _ _ s. s)
call-Sound drain_execution r sound = onward-Sound _ _ _ sound (λ _ _ s. s)
call-Sound drain_progress r sound = onward-Sound _ _ _ sound (λ _ _ s. s)
call-Sound drain_telemetry r sound = onward-Sound _ _ _ sound (λ _ _ s. s)
call-Sound (retry item) r sound = retry-Sound item r sound

-- In every runtime that a client can reach, whatever calls it made and whatever they answered,
-- also after the capabilities around it changed and after restarts, the run is in the store at the
-- revision that the runtime knows, journal and cancelled tasks are those of the run, the journal's
-- facts rest on each other, and an effect that may not be repeated has at most one dispatch.
pub Reachable-Sound : {r : Runtime} → Reachable r → Sound r
Reachable-Sound (started run_id w context configs {r} e) =
    (given_by (ConfigRefused w configs) (Started run_id w) (start_run run_id w context configs) r
      (start_run-Gives run_id w context configs) e).sound
Reachable-Sound (called {r} c h) = call-Sound c r (Reachable-Sound h)
Reachable-Sound (changed context h) = Reachable-Sound h
Reachable-Sound (restarted r {r'} w context configs h e) =
    let sound = Reachable-Sound h in
    let as_ = State.attempts sound.run in
    (given_by (RestoreRefused w context configs as_) (Restored r w context configs as_)
      (restore_run r.run_id w context configs r.store) r'
      (restore_run_lem r w context configs sound) e).sound
