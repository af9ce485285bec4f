-- ===== src/Recovery/Tests.antt =====
-- Runs of crates/workflow-recovery, and the properties at concrete inputs.
use graph_core.Base.{◌≡◌, refl, ◌≢◌, ◌↔◌, [], ◌∷◌, last}
use graph_core.Base.Results.{ok}
use graph_core.Base.Order.{nat_ord, list_ord, ord_by, lex}
use graph_core.Base.BTreeMap.{get, insert}
use graph_core.Core.Ident.{ident_ord}
use graph_core.Workflow.Graph.{WorkflowGraph, default, with_tasks}
use graph_core.Recovery.Model.{
  operation_ord, attempt_ord, EffectIntent, non_idempotent, DispatchRecord, succeeded,
  outcome_unknown, RecoveryDecision, execute, retry_same_operation,
}
use graph_core.Recovery.Journal.{
  DurableJournal, persist_intent, persist_dispatch, persist_outcome, settle_outcome, state,
  known_outcome, latest_dispatch, last_attempt,
}
use graph_core.Recovery.Journal
use graph_core.Recovery.Journal.Invariant.{IsValid}
use graph_core.Recovery.Journal.History.{
  Grown, unchanged, with_intent, with_dispatch, with_outcome, journal-IsValid, Grown-keeps-IsValid,
}
use graph_core.Recovery.Journal.Dispatch.{MayDispatch, persist_dispatch_lem}
use graph_core.Recovery.Decision.{classify_recovery}
use graph_core.Recovery.Decision.Safety.{
  Grounds, classify_recovery_lem, classify_recovery_never_repeats,
}

abbrev pay : EffectIntent
pay = record {
  task_id = record { value = 0x74 ∷ [] };
  operation_id = record { id = record { value = 0x6f ∷ [] } };
  semantics = non_idempotent;
}

abbrev first_try : DispatchRecord
first_try = record {
  operation_id = pay.operation_id;
  attempt_id = record { id = record { value = 0x61 ∷ [] } };
}

abbrev planned : WorkflowGraph
planned = with_tasks default ((pay.task_id, record { id = pay.task_id; label = [] }) ∷ [])

abbrev dispatched : DurableJournal
dispatched = record {
  intents = (pay.operation_id, pay) ∷ [];
  task_operations = (pay.task_id, pay.operation_id) ∷ [];
  dispatches = (first_try.attempt_id, first_try) ∷ [];
  operation_attempts = (pay.operation_id, first_try.attempt_id ∷ []) ∷ [];
  outcomes = [];
}

dispatched-Grown : Grown Journal.new dispatched
unfolding persist_intent persist_dispatch get insert operation_ord attempt_ord ident_ord list_ord
    ord_by nat_ord lex
dispatched-Grown = with_dispatch first_try (with_intent pay unchanged refl) refl

abbrev settled : DurableJournal
settled = record dispatched {
  outcomes =
      (
        first_try.attempt_id,
        record {
          operation_id = first_try.operation_id;
          attempt_id = first_try.attempt_id;
          outcome = succeeded;
        },
      )
      ∷ [];
}

settled-Grown : Grown dispatched settled
unfolding persist_outcome settle_outcome get insert operation_ord attempt_ord ident_ord list_ord
    ord_by nat_ord lex
settled-Grown =
    with_outcome
      (record {
        operation_id = first_try.operation_id;
        attempt_id = first_try.attempt_id;
        outcome = succeeded;
      })
      unchanged refl

dispatched_is_unknown : state dispatched pay.operation_id ≡ outcome_unknown
unfolding state known_outcome latest_dispatch last_attempt get last operation_ord attempt_ord
    ident_ord list_ord ord_by nat_ord lex
dispatched_is_unknown = refl

journal-IsValid_example : IsValid dispatched
journal-IsValid_example = journal-IsValid dispatched-Grown

classify_recovery_lem_example :
    (d : RecoveryDecision) × (classify_recovery planned dispatched pay.operation_id ≡ ok d)
    × Grounds planned dispatched pay.operation_id pay d.action
unfolding get operation_ord ident_ord list_ord ord_by nat_ord lex
classify_recovery_lem_example = classify_recovery_lem planned dispatched pay.operation_id pay refl

classify_recovery_never_repeats_example :
    (d : RecoveryDecision) × (classify_recovery planned settled pay.operation_id ≡ ok d)
    × (d.action ≢ execute)
    × (d.action ≢ retry_same_operation)
unfolding get operation_ord attempt_ord ident_ord list_ord ord_by nat_ord lex
classify_recovery_never_repeats_example =
    classify_recovery_never_repeats planned pay first_try.attempt_id first_try dispatched-Grown refl
      refl refl settled-Grown

abbrev second_try : DispatchRecord
second_try = record {
  operation_id = pay.operation_id;
  attempt_id = record { id = record { value = 0x62 ∷ [] } };
}

persist_dispatch_lem_example :
    (((k : DurableJournal) × (persist_dispatch settled second_try ≡ ok k))
      ↔ MayDispatch settled second_try)
    × ((k : DurableJournal)
        → persist_dispatch settled second_try ≡ ok k
        → state k pay.operation_id ≡ outcome_unknown)
persist_dispatch_lem_example =
    persist_dispatch_lem settled second_try
      (Grown-keeps-IsValid journal-IsValid_example settled-Grown)
