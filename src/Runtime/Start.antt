-- ===== src/Runtime/Start.antt =====
-- `start_run`, `restore_run`, and the calls that hand over to the workflow.
use graph_core.Base.{◌+◌, not, List, [], ◌∷◌, Option, none, some, is_some, length, if◌then◌else◌}
use graph_core.Base.Results.{Result, ok, err, ◌>>=◌, ◌>>◌, ensure}
use graph_core.Base.Texts.{codes}
use graph_core.Base.BTreeMap.{BTreeMap, BTreeSet, insert}
use graph_core.Core.Ident.{Text, Ident, ident_ord}
use graph_core.Core.Ident
use graph_core.Core.Revision.{Revision}
use graph_core.Workflow.Topology.{task}
use graph_core.Workflow.Mutation.{MutationBatch, WorkflowMutationRecord}
use graph_core.Workflow.Graph.{WorkflowGraph, apply_batch}
use graph_core.Stream.Sequencer
use graph_core.Stream.Buffers.Lossless
use graph_core.Stream.Buffers.Lossy
use graph_core.Stream.Buffers.Coalescing
use graph_core.Recovery.Journal.{DurableJournal}
use graph_core.Recovery.Journal
use graph_core.Recovery.Durable.Facts.{RunId, StoreRevision, AttemptAdmission, CancellationRecord}
use graph_core.Recovery.Durable.State.{DurableRunState, attempts, cancellations}
use graph_core.Recovery.Durable.Store.{
  InMemoryDurableStore, create_run, load_run, from_durable_state,
}
use graph_core.Recovery.Durable.Store
use graph_core.Capability.Entry.{CapabilityHandle}
use graph_core.Runtime.Config.{TaskConfig}
use graph_core.Runtime.State.{
  TaskAttempt, Runtime, RuntimeError, workflow, journal, store, unknown_task,
}
use graph_core.Runtime.Action.{Outcome, convert, unwrapped}
use graph_core.Runtime.Pins.{capture_capability_pins}

abbrev pub Context : Type 0
Context = Ident → Option CapabilityHandle

-- The loop of `build` over the task configurations.
unfoldable pub collect_configs :
    WorkflowGraph
    → List (Ident × TaskConfig)
    → BTreeMap Ident TaskConfig
    → Result RuntimeError (BTreeMap Ident TaskConfig)
collect_configs w [] configs = ok configs
collect_configs w ((task_id, config) ∷ rest) configs = do
  ensure (is_some (task w.topology task_id)) (unknown_task task_id)
  collect_configs w rest (insert task_id config configs)

unfoldable pub stream_id : Text → Result RuntimeError Ident
stream_id value = unwrapped (Ident.new value)

unfoldable pub build :
    RunId
    → WorkflowGraph
    → Context
    → List (Ident × TaskConfig)
    → DurableJournal
    → InMemoryDurableStore
    → StoreRevision
    → Result RuntimeError Runtime
build run_id w context task_configs j s revision = do
  configs ← collect_configs w task_configs []
  execution ← stream_id (codes "runtime-events")
  progress ← stream_id (codes "runtime-progress")
  diagnostics ← stream_id (codes "runtime-telemetry")
  execution_events ← unwrapped (Lossless.new 128)
  progress_events ← unwrapped (Coalescing.new 8)
  telemetry_events ← unwrapped (Lossy.new 1)
  ok (record {
    run_id = run_id;
    workflow = w;
    context = context;
    journal = j;
    store = s;
    store_revision = revision;
    task_configs = configs;
    attempts = [];
    pending_started = none;
    cancelled = [];
    next_attempt_number = 1;
    execution_sequencer = Sequencer.new execution;
    progress_sequencer = Sequencer.new progress;
    telemetry_sequencer = Sequencer.new diagnostics;
    execution_events = execution_events;
    progress_events = progress_events;
    telemetry_events = telemetry_events;
  })

unfoldable pub start_run :
    RunId → WorkflowGraph → Context → List (Ident × TaskConfig) → Result RuntimeError Runtime
start_run run_id w context task_configs = do
  let created = create_run Store.new run_id
  revision ← convert store (created.1)
  build run_id w context task_configs Journal.new created.0 revision

-- The loop over the durable cancellations.
unfoldable pub restore_cancelled : List CancellationRecord → BTreeSet Ident → BTreeSet Ident
restore_cancelled [] cancelled = cancelled
restore_cancelled (c ∷ cs) cancelled = restore_cancelled cs (insert c.task_id tt cancelled)

-- The loop over the durable admissions: the pins of each attempt are captured again.
unfoldable pub restore_attempts :
    Runtime → List AttemptAdmission → Result RuntimeError (List TaskAttempt)
restore_attempts r [] = ok []
restore_attempts r (a ∷ as_) = do
  pins ← capture_capability_pins a.task_id (some a.capabilities) r
  rest ← restore_attempts r as_
  ok (
      record {
        run_id = a.run_id;
        task_id = a.task_id;
        attempt_id = a.attempt_id;
        operation_id = a.operation_id;
        capability_pins = pins;
      }
      ∷ rest)

unfoldable pub restore_run :
    RunId
    → WorkflowGraph
    → Context
    → List (Ident × TaskConfig)
    → InMemoryDurableStore
    → Result RuntimeError Runtime
restore_run run_id w context task_configs s = do
  st ← convert store (load_run s run_id)
  j ← convert journal (from_durable_state st)
  r ← build run_id w context task_configs j s st.revision
  restored ← restore_attempts r (attempts st)
  ok (record r {
    cancelled = restore_cancelled (cancellations st) r.cancelled;
    attempts = restored;
    next_attempt_number = length (attempts st) + 1;
  })

unfoldable pub durable_state : Runtime → Result RuntimeError DurableRunState
durable_state r = convert store (load_run r.store r.run_id)

unfoldable pub configure_task : Ident → TaskConfig → Runtime → Outcome (Unit {0})
configure_task task_id config r =
    if not (is_some (task r.workflow.topology task_id))
    then (r, err (unknown_task task_id))
    else (record r { task_configs = insert task_id config r.task_configs }, ok tt)

unfoldable pub apply_workflow_mutation :
    Revision → MutationBatch → Runtime → Outcome WorkflowMutationRecord
apply_workflow_mutation expected_revision batch r =
    let (w, result) = apply_batch r.workflow expected_revision batch in
    (record r { workflow = w }, convert workflow result)
