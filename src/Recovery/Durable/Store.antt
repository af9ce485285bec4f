-- ===== src/Recovery/Durable/Store.antt =====
-- `DurableStore` for `InMemoryDurableStore`, and `DurableJournal::from_durable_state`.
use graph_core.Base.{true, false, List, [], ◌∷◌, none, some, is_empty, ite, if◌then◌else◌}
use graph_core.Base.Results.{Result, ok, err, panic, out_of_fuel, ensure, ok_or, ◌>>=◌, ◌>>◌}
use graph_core.Base.Order.{◌==◌}
use graph_core.Base.BTreeMap.{BTreeMap, get, insert, contains_key}
use graph_core.Recovery.Journal.{
  DurableJournal, JournalError, persist_intent, persist_dispatch, persist_outcome,
}
use graph_core.Recovery.Journal
use graph_core.Recovery.Durable.Facts.{
  RunId, run_ord, StoreRevision, store_revision_ord, key_ord, initial, checked_next,
  DurableMutation, mutations-discrete, CommitRequest, CommitResult, StoreError, run_not_found,
  run_already_exists, revision_conflict, idempotency_conflict, empty_commit, revision_exhausted,
}
use graph_core.Recovery.Durable.State.{DurableRunState, intents}
use graph_core.Recovery.Durable.State
use graph_core.Recovery.Durable.Mutation.{apply_mutation}

pub record InMemoryDurableStore : Type 0 where
  pub runs : BTreeMap RunId DurableRunState

abbrev pub new : InMemoryDurableStore
new = record { runs = [] }

unfoldable pub create_run :
    InMemoryDurableStore → RunId → InMemoryDurableStore × Result StoreError StoreRevision
create_run store run =
    if contains_key run store.runs
    then (store, err (run_already_exists run))
    else (record { runs = insert run (State.new run) store.runs }, ok initial)

unfoldable pub load_run : InMemoryDurableStore → RunId → Result StoreError DurableRunState
load_run store run = ok_or (get run store.runs) (run_not_found run)

-- The loop of `commit` over a candidate.
unfoldable pub apply_all :
    DurableRunState → List DurableMutation → Result StoreError DurableRunState
apply_all s [] = ok s
apply_all s (m ∷ ms) = apply_mutation s m >>= λ s'. apply_all s' ms

-- `commit` on a run where the key is new: the state that replaces the old one.
unfoldable pub commit_new : DurableRunState → CommitRequest → Result StoreError DurableRunState
commit_new s request = do
  ensure (request.expected_revision == s.revision)
      (revision_conflict request.expected_revision s.revision)
  revision ← ok_or (checked_next s.revision) (revision_exhausted s.revision)
  candidate ← apply_all s request.mutations
  ok (record candidate {
    revision = revision;
    idempotency =
        insert request.idempotency_key (request.mutations, revision) candidate.idempotency;
  })

-- `commit` on the run that it found.
unfoldable pub commit_run :
    InMemoryDurableStore
    → DurableRunState
    → CommitRequest
    → InMemoryDurableStore × Result StoreError CommitResult
commit_run store s request = elim (get request.idempotency_key s.idempotency) [
  | some (existing, _) ↦ (
    store,
    ite (mutations-discrete existing request.mutations)
        (ok (record { revision = s.revision; replayed = true }))
        (err (idempotency_conflict request.idempotency_key)),
  )
  | none ↦ elim (commit_new s request) [
    | ok s' ↦ (
      record { runs = insert request.run_id s' store.runs },
      ok (record { revision = s'.revision; replayed = false }),
    )
    | err e ↦ (store, err e)
    | panic ↦ (store, panic)
    | out_of_fuel ↦ (store, out_of_fuel)
  ]
]

unfoldable pub commit :
    InMemoryDurableStore → CommitRequest → InMemoryDurableStore × Result StoreError CommitResult
commit store request =
    if is_empty request.mutations
    then (store, err empty_commit)
    else elim (get request.run_id store.runs) [
      | none ↦ (store, err (run_not_found request.run_id))
      | some s ↦ commit_run store s request
    ]

module _ {A : Type 0} where
  -- A loop of fallible updates.
  unfoldable pub persist_all :
      (DurableJournal → A → Result JournalError DurableJournal)
      → DurableJournal
      → List A
      → Result JournalError DurableJournal
  persist_all persist j [] = ok j
  persist_all persist j (x ∷ xs) = persist j x >>= λ j'. persist_all persist j' xs

unfoldable pub from_durable_state : DurableRunState → Result JournalError DurableJournal
from_durable_state s = do
  with_intents ← persist_all persist_intent Journal.new (intents s)
  with_dispatches ← persist_all persist_dispatch with_intents s.dispatch_history
  persist_all persist_outcome with_dispatches s.outcome_history
