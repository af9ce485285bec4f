-- ===== src/Recovery/Durable/Tests.antt =====
-- Runs of crates/workflow-recovery/src/durable.rs, and the properties at concrete inputs.
use graph_core.Base.{◌≡◌, refl, ◌≢◌, true, false, [], ◌∷◌, some, Memᴰ}
use graph_core.Base.Results.{ok}
use graph_core.Base.Order.{nat_ord, list_ord, ord_by, lex}
use graph_core.Base.BTreeMap.{get, insert}
use graph_core.Core.Ident.{ident_ord}
use graph_core.Workflow.Graph.{default}
use graph_core.Recovery.Model.{
  OperationId, operation_ord, attempt_ord, EffectIntent, non_idempotent, DispatchRecord,
  RecoveryDecision, execute, retry_same_operation,
}
use graph_core.Recovery.Journal.{DurableJournal}
use graph_core.Recovery.Decision.{classify_recovery}
use graph_core.Recovery.Durable.Facts.{
  RunId, run_ord, store_revision_ord, key_ord, checked_next, initial, AttemptAdmission,
  CancellationRecord, admit_attempt, record_intent, record_dispatch, record_cancellation,
  CommitRequest, single,
}
use graph_core.Recovery.Durable.State.{DurableRunState, is_cancelled, intent}
use graph_core.Recovery.Durable.State
use graph_core.Recovery.Durable.Mutation.{
  same_operation, check_dispatch, apply_admission, apply_intent, apply_dispatch, apply_mutation,
}
use graph_core.Recovery.Durable.Store.{
  InMemoryDurableStore, create_run, commit, commit_new, commit_run, apply_all, from_durable_state,
}
use graph_core.Recovery.Durable.Store
use graph_core.Recovery.Durable.Commits.{Commits, commit-Commits}
use graph_core.Recovery.Durable.Replays.{Later, now, after_create, after_commit, commit_again}
use graph_core.Recovery.Durable.Cancellation.{Withheld, cancelled_never_dispatched}
use graph_core.Recovery.Durable.Agreement.{Agrees, from_durable_state-Agrees}
use graph_core.Recovery.Durable.Restart.{restart_never_repeats}

abbrev run : RunId
run = record { id = record { value = 0x72 ∷ [] } }

abbrev pay : EffectIntent
pay = record {
  task_id = record { value = 0x74 ∷ [] };
  operation_id = record { id = record { value = 0x6f ∷ [] } };
  semantics = non_idempotent;
}

abbrev first_try : DispatchRecord
first_try = record {
  operation_id = pay.operation_id;
  attempt_id = record { id = record { value = 0x61 ∷ [] } };
}

abbrev admission : AttemptAdmission
admission = record {
  run_id = run;
  task_id = pay.task_id;
  attempt_id = first_try.attempt_id;
  operation_id = some pay.operation_id;
  capabilities = [];
}

abbrev start_request : CommitRequest
start_request = record {
  run_id = run;
  expected_revision = initial;
  idempotency_key = record { value = 0x6b ∷ [] };
  mutations = admit_attempt admission ∷ record_intent pay ∷ record_dispatch first_try ∷ [];
}

abbrev started : DurableRunState
started = record (State.new run) {
  revision = record { value = 1 };
  admissions = (first_try.attempt_id, admission) ∷ [];
  admission_history = admission ∷ [];
  intents = (pay.operation_id, pay) ∷ [];
  task_operations = (pay.task_id, pay.operation_id) ∷ [];
  dispatches = (first_try.attempt_id, first_try) ∷ [];
  dispatch_history = first_try ∷ [];
  idempotency =
      (start_request.idempotency_key, (start_request.mutations, record { value = 1 })) ∷ [];
}

created : InMemoryDurableStore
created = (create_run Store.new run).0

after_start : InMemoryDurableStore
after_start = (commit created start_request).0

start_answer :
    (commit created start_request).1
    ≡ ok (record { revision = record { value = 1 }; replayed = false })
unfolding created create_run commit commit_run commit_new apply_all apply_mutation apply_admission
    apply_intent apply_dispatch check_dispatch same_operation checked_next get insert run_ord
    store_revision_ord key_ord operation_ord attempt_ord ident_ord list_ord ord_by nat_ord lex
start_answer = refl

start_state : get run after_start.runs ≡ some started
unfolding created after_start create_run commit commit_run commit_new apply_all apply_mutation
    apply_admission apply_intent apply_dispatch check_dispatch same_operation checked_next get
    insert run_ord store_revision_ord key_ord operation_ord attempt_ord ident_ord list_ord ord_by
    nat_ord lex
start_state = refl

after_start-Later : Later Store.new after_start
unfolding created after_start
after_start-Later = after_commit start_request (after_create run now)

abbrev cancellation : CancellationRecord
cancellation = record {
  run_id = run;
  task_id = pay.task_id;
  operation_id = some pay.operation_id;
  attempt_id = some first_try.attempt_id;
}

abbrev cancel_request : CommitRequest
cancel_request = record {
  run_id = run;
  expected_revision = record { value = 1 };
  idempotency_key = record { value = 0x6c ∷ [] };
  mutations = record_cancellation cancellation ∷ [];
}

commit-Commits_example : Commits created start_request (commit created start_request)
commit-Commits_example = commit-Commits created start_request

commit_again_example :
    (s : DurableRunState) × (get run (commit after_start cancel_request).0.runs ≡ some s)
    × (commit (commit after_start cancel_request).0 start_request ≡ (
      (commit after_start cancel_request).0,
      ok (record { revision = s.revision; replayed = true }),
    ))
unfolding after_start
commit_again_example =
    commit_again created start_request
      (record { revision = record { value = 1 }; replayed = false }) start_answer
      (after_commit cancel_request now)

abbrev cancelled : DurableRunState
cancelled = record started { cancellations = (pay.task_id, cancellation) ∷ [] }

abbrev cancelled_store : InMemoryDurableStore
cancelled_store = record { runs = (run, cancelled) ∷ [] }

abbrev late_request : CommitRequest
late_request =
    single run (record { value = 1 }) (record { value = 0x6d ∷ [] }) (record_dispatch first_try)

cancelled_never_dispatched_example :
    (t : DurableRunState) × (get run (commit cancelled_store late_request).0.runs ≡ some t)
    × Withheld cancelled pay.task_id t
unfolding get run_ord ident_ord list_ord ord_by nat_ord lex is_cancelled
cancelled_never_dispatched_example =
    cancelled_never_dispatched cancelled_store run cancelled pay.task_id refl refl
      (after_commit late_request now)

from_durable_state-Agrees_example :
    (j : DurableJournal) × (from_durable_state started ≡ ok j)
    × ((op : OperationId) → Agrees started j op)
from_durable_state-Agrees_example =
    from_durable_state-Agrees run started after_start-Later start_state

restart_never_repeats_example :
    (j : DurableJournal) × (from_durable_state started ≡ ok j)
    × ((x : RecoveryDecision) × (classify_recovery default j pay.operation_id ≡ ok x)
        × (x.action ≢ execute)
        × (x.action ≢ retry_same_operation))
unfolding intent get operation_ord ident_ord list_ord ord_by nat_ord lex
restart_never_repeats_example =
    restart_never_repeats default run started pay first_try after_start-Later start_state refl refl
      (Memᴰ.head refl)
