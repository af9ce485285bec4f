-- ===== src/Runtime/Tests.antt =====
-- Runs of crates/runtime-core/src/lib.rs, and the theorems at concrete inputs.
use graph_core.Base.{◌≡◌, refl, List, [], ◌∷◌, none, some}
use graph_core.Base.Results.{ok}
use graph_core.Base.Texts.{codes}
use graph_core.Base.BTreeMap.{get}
use graph_core.Core.Ident.{Ident, ident_ord}
use graph_core.Core.Revision
use graph_core.Core.Revision.{revision_ord, checked_next}
use graph_core.Core.Ident.{trim, trim_end, trim_start, is_whitespace}
use graph_core.Core.Ident
use graph_core.Base.{drop_last, filter, all, last}
use graph_core.Base.Walks.{from_position}
use graph_core.Base.Order.{ord_by, nat_ord, lex, list_ord}
use graph_core.Base.BTreeMap.{insert, remove}
use graph_core.Stream.Buffers.Lossless
use graph_core.Stream.Buffers.Coalescing
use graph_core.Stream.Buffers.Lossy
use graph_core.Workflow.Topology.{
  task, contains_task, dependencies, task_ids, close_cycle, visit_all, visit, visit_tasks,
  cycle_path,
}
use graph_core.Workflow.Facts.{is_completed}
use graph_core.Workflow.Mutation.{is_empty_batch}
use graph_core.Workflow.Graph.{
  roll_back, insert_edge, check_cycle, apply_mutation, apply_mutations, reject_cycle, prepare,
  complete, check_prerequisites, check_completion, ready_tasks, prerequisites_completed,
}
use graph_core.Recovery.Durable.Facts.{run_ord}
use graph_core.Recovery.Durable.Store.{create_run}
use graph_core.Recovery.Durable.Facts
use graph_core.Recovery.Durable.Facts.{key_ord, store_revision_ord, idempotency_key_new}
use graph_core.Recovery.Durable.Mutation
use graph_core.Recovery.Durable.Mutation.{apply_admission, apply_intent, apply_dispatch}
use graph_core.Stream.Item
use graph_core.Recovery.Durable.Store.{commit, commit_run, commit_new, apply_all}
use graph_core.Recovery.Journal.{
  persist_intent, operation_for_task, state, known_outcome, latest_dispatch, last_attempt, intent,
}
use graph_core.Recovery.Model.{operation_ord, attempt_ord, attempt_id_new}
use graph_core.Base.Texts.{digits, decimal}
use graph_core.Stream.Sequencer.{emit, advance}
use graph_core.Runtime.Commit.{commit_request, commit_durable, persist_fact, record_effect_intent}
use graph_core.Runtime.Pins.{capture_all, check_expected, required_of, capture_capability_pins}
use graph_core.Runtime.Attempts.{
  find_attempt, attempt_for_task, pending_attempt, advance_attempt_number, announce_started,
  new_attempt, begin_attempt,
}
use graph_core.Runtime.Events.{enqueue_execution, emit_execution, emit_completed}
use graph_core.Runtime.Effects.{complete_task}
use graph_core.Runtime.Step.{
  configured_effect, record_configured, ensure_configured_effect, finish_task, step_plain,
  step_effect, step_with, step_task, first_open, step_open, run_from,
}
use graph_core.Runtime.Start.{build, collect_configs, stream_id}
use graph_core.Stream.Item.{StreamItem}
use graph_core.Stream.Sequencer
use graph_core.Workflow.Mutation.{add_task, add_dependency, MutationBatch}
use graph_core.Workflow.Graph.{WorkflowGraph, default, apply_batch}
use graph_core.Recovery.Model.{OperationId, AttemptId, non_idempotent}
use graph_core.Recovery.Journal
use graph_core.Recovery.Durable.Facts.{RunId, initial}
use graph_core.Recovery.Durable.State
use graph_core.Runtime.Config.{TaskConfig}
use graph_core.Runtime.State.{completed, effect_pending, Runtime}
use graph_core.Runtime.Step.{step, run_until_blocked}
use graph_core.Runtime.Start.{Context, start_run}

abbrev pub fetch : Ident
fetch = record { value = codes "fetch" }

abbrev pub charge : Ident
charge = record { value = codes "charge" }

abbrev pub payment : OperationId
payment = record { id = record { value = codes "pay" } }

abbrev pub run_id : RunId
run_id = record { id = record { value = codes "run" } }

abbrev fetch_then_charge : MutationBatch
fetch_then_charge = record {
  mutations =
      add_task (record { id = fetch; label = [] })
      ∷ add_task (record { id = charge; label = [] })
      ∷ add_dependency charge fetch
      ∷ [];
}

abbrev pub workflow : WorkflowGraph
workflow = (apply_batch default Revision.zero fetch_then_charge).0

abbrev charging : TaskConfig
charging = record {
  required = [];
  effect = some (record { operation_id = payment; semantics = non_idempotent });
}

abbrev pub no_capabilities : Context
no_capabilities _ = none

abbrev pub configs : List (Ident × TaskConfig)
configs = (charge, charging) ∷ []

abbrev pub begun : Runtime
begun = record {
  run_id = run_id;
  workflow = workflow;
  context = no_capabilities;
  journal = Journal.new;
  store = record { runs = (run_id, State.new run_id) ∷ [] };
  store_revision = initial;
  task_configs = configs;
  attempts = [];
  pending_started = none;
  cancelled = [];
  next_attempt_number = 1;
  execution_sequencer = Sequencer.new (record { value = codes "runtime-events" });
  progress_sequencer = Sequencer.new (record { value = codes "runtime-progress" });
  telemetry_sequencer = Sequencer.new (record { value = codes "runtime-telemetry" });
  execution_events = record { capacity = 128; items = [] };
  progress_events = record { capacity = 8; items = [] };
  telemetry_events = record { capacity = 1; items = [] };
}

pub begun_started : start_run run_id workflow no_capabilities configs ≡ ok begun
unfolding start_run create_run build collect_configs stream_id Ident.new trim trim_end trim_start
    is_whitespace Lossless.new Coalescing.new Lossy.new Sequencer.new ord_by nat_ord lex list_ord
    ident_ord revision_ord run_ord get insert apply_batch prepare default is_empty_batch
    checked_next apply_mutations apply_mutation contains_task task insert_edge check_cycle
    reject_cycle roll_back cycle_path dependencies task_ids visit visit_all visit_tasks close_cycle
    from_position is_completed remove drop_last
begun_started = refl

abbrev pub first_attempt : AttemptId
first_attempt = record { id = record { value = codes "run-attempt-1" } }

abbrev pub second_attempt : AttemptId
second_attempt = record { id = record { value = codes "run-attempt-2" } }

-- The plain task is completed; the effect of the other waits for its dispatch.
run_stops_at_the_effect :
    (run_until_blocked begun).1
    ≡ ok (completed fetch first_attempt ∷ effect_pending charge second_attempt payment ∷ [])
unfolding run_until_blocked run_from step first_open step_open step_task ensure_configured_effect
    record_configured configured_effect step_with step_plain step_effect finish_task complete_task
    complete check_completion check_prerequisites ready_tasks prerequisites_completed filter all
    emit_completed emit_execution enqueue_execution emit advance Lossless.try_push
    operation_for_task state known_outcome latest_dispatch last_attempt last operation_ord
    attempt_ord find_attempt attempt_for_task pending_attempt begin_attempt new_attempt
    attempt_id_new advance_attempt_number announce_started digits decimal capture_capability_pins
    capture_all check_expected required_of record_effect_intent persist_fact persist_intent
    commit_durable commit_request idempotency_key_new commit commit_run commit_new
    Facts.checked_next apply_all Mutation.apply_mutation apply_admission apply_intent key_ord
    store_revision_ord ord_by nat_ord lex list_ord ident_ord revision_ord run_ord get insert
    apply_batch prepare default is_empty_batch checked_next apply_mutations apply_mutation
    contains_task task insert_edge check_cycle reject_cycle roll_back cycle_path dependencies
    task_ids visit visit_all visit_tasks close_cycle from_position is_completed remove drop_last
    Ident.new trim trim_end trim_start is_whitespace Sequencer.new Item.checked_next
run_stops_at_the_effect = refl
