-- ===== src/Recovery/Durable/Refusals.antt =====
-- What each error of `commit` is about.
use graph_core.Base.{◌≡◌, ◌≢◌, true, List, none, some, is_empty}
use graph_core.Base.Results.{err}
use graph_core.Base.BTreeMap.{get}
use graph_core.Recovery.Durable.Facts.{
  run_ord, key_ord, StoreRevision, checked_next, DurableMutation, CommitRequest, StoreError,
  run_not_found, run_already_exists, revision_conflict, idempotency_conflict, empty_idempotency_key,
  empty_commit, invariant_violation, revision_exhausted,
}
use graph_core.Recovery.Durable.State.{DurableRunState}
use graph_core.Recovery.Durable.Store.{InMemoryDurableStore, apply_all}

-- Why a commit is refused.
abbrev pub Refused : InMemoryDurableStore → CommitRequest → StoreError → Type 0
Refused store request empty_commit = is_empty request.mutations ≡ true
Refused store request (run_not_found run) =
    (run ≡ request.run_id) × (get request.run_id store.runs ≡ none)
Refused store request (idempotency_conflict key) =
    (key ≡ request.idempotency_key)
    × ((s : DurableRunState) × (used : List DurableMutation × StoreRevision) × (get request.run_id
            store.runs
          ≡ some s)
        × (get key s.idempotency ≡ some used)
        × (used.0 ≢ request.mutations))
Refused store request (revision_conflict expected actual) =
    (expected ≡ request.expected_revision)
    × (expected ≢ actual)
    × ((s : DurableRunState) × (get request.run_id store.runs ≡ some s) × (actual ≡ s.revision))
Refused store request (revision_exhausted current) =
    (checked_next current ≡ none)
    × ((s : DurableRunState) × (get request.run_id store.runs ≡ some s) × (current ≡ s.revision))
Refused store request (invariant_violation i) =
    (s : DurableRunState) × (get request.run_id store.runs ≡ some s)
    × (apply_all s request.mutations ≡ err (invariant_violation i))
Refused store request (run_already_exists run) = ⊥
Refused store request empty_idempotency_key = ⊥
