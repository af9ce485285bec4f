-- ===== src/Runtime/Commit.antt =====
-- `commit_durable`, and the three methods that persist an effect fact.
use graph_core.Base.{List, [], ◌∷◌, ◌++◌, is_some, not, if◌then◌else◌}
use graph_core.Base.Texts.{codes}
use graph_core.Core.Ident.{Text, Ident}
use graph_core.Workflow.Topology.{task}
use graph_core.Workflow.Facts.{is_completed}
use graph_core.Workflow.Mutation.{task_already_completed}
use graph_core.Recovery.Model.{
  OperationId, AttemptId, EffectSemantics, EffectIntent, KnownEffectOutcome, OutcomeRecord,
}
use graph_core.Recovery.Journal.{DurableJournal, Update, persist_intent, persist_outcome}
use graph_core.Recovery.Durable.Facts.{
  StoreRevision, IdempotencyKey, idempotency_key_new, DurableMutation, record_intent,
  record_outcome, CommitResult,
}
use graph_core.Recovery.Durable.Store
use graph_core.Runtime.State.{workflow, journal, store, unknown_task}
use graph_core.Runtime.Action.{Action, ◌>>=◌, ◌>>◌, pure, fail, convert, gets, modify}

-- `self.store.commit(..)?` with the known revision.
unfoldable pub commit_request : IdempotencyKey → List DurableMutation → Action CommitResult
commit_request key mutations r =
    let (store', result) = Store.commit r.store (record {
      run_id = r.run_id;
      expected_revision = r.store_revision;
      idempotency_key = key;
      mutations = mutations;
    }) in
    (record r { store = store' }, convert store result)

unfoldable pub commit_durable : Text → List DurableMutation → Action StoreRevision
commit_durable idempotency_key mutations = do
  key ← gets store (λ _. idempotency_key_new idempotency_key)
  result ← commit_request key mutations
  modify (λ r. record r { store_revision = result.revision })
  pure (result.revision)

-- A fact is first tried on a candidate of the journal, then committed, and then the candidate is
-- the journal.
unfoldable pub persist_fact : (DurableJournal → Update) → Text → DurableMutation → Action (Unit {0})
persist_fact persist idempotency_key mutation = do
  candidate ← gets journal (λ r. persist r.journal)
  _ ← commit_durable idempotency_key (mutation ∷ [])
  modify (λ r. record r { journal = candidate })

abbrev pub intent_key : EffectIntent → Text
intent_key intent = codes "intent:" ++ intent.operation_id.id.value

unfoldable pub record_effect_intent : Ident → OperationId → EffectSemantics → Action (Unit {0})
record_effect_intent task_id operation_id semantics r =
    if not (is_some (task r.workflow.topology task_id))
    then fail (unknown_task task_id) r
    else if is_completed r.workflow.facts task_id
    then fail (workflow (task_already_completed task_id)) r
    else let intent : EffectIntent = record {
      task_id = task_id;
      operation_id = operation_id;
      semantics = semantics;
    } in
      persist_fact (λ j. persist_intent j intent) (intent_key intent) (record_intent intent) r

unfoldable pub record_effect_outcome :
    OperationId → AttemptId → KnownEffectOutcome → Action (Unit {0})
record_effect_outcome operation_id attempt_id outcome =
    let o : OutcomeRecord = record {
      operation_id = operation_id;
      attempt_id = attempt_id;
      outcome = outcome;
    } in
    persist_fact (λ j. persist_outcome j o) (codes "outcome:" ++ attempt_id.id.value)
      (record_outcome o)
