-- ===== src/Recovery/Durable/Replays.antt =====
-- A commit that is sent again.
use graph_core.Base.{
  ◌≡◌, refl, sym, inl, inr, true, false, some, is_empty, if_pos, arith, Bool-cases, Option-cases,
  subst,
}
use graph_core.Base.Results.{Result, ok, err, panic, out_of_fuel}
use graph_core.Base.Order.{◌==◌, ==_iff, ==_refl}
use graph_core.Base.BTreeMap.{get, get-insert}
use graph_core.Recovery.Durable.Facts.{
  RunId, run_ord, StoreRevision, key_ord, CommitRequest, CommitResult, StoreError,
}
use graph_core.Recovery.Durable.State.{DurableRunState}
use graph_core.Recovery.Durable.State
use graph_core.Recovery.Durable.Store.{InMemoryDurableStore, create_run, commit_run, commit}
use graph_core.Recovery.Durable.Commits.{Commits, commit-Commits, Applied, seal}

-- The stores that later calls lead to, errors included.
pub data Later (store : InMemoryDurableStore) : InMemoryDurableStore → Type 0 where
  now : Later store store
  after_create :
      {t : InMemoryDurableStore} (run : RunId) → Later store t → Later store (create_run t run).0
  after_commit :
      {t : InMemoryDurableStore} (request : CommitRequest)
      → Later store t
      → Later store (commit t request).0

-- The request's run has the request's key for the request's mutations.
record Used (request : CommitRequest) (store : InMemoryDurableStore) : Type 0 where
  state : DurableRunState
  at_revision : StoreRevision
  found : get request.run_id store.runs ≡ some state
  used : get request.idempotency_key state.idempotency ≡ some (request.mutations, at_revision)

replays_at :
    (store : InMemoryDurableStore) (request : CommitRequest) (s : DurableRunState)
    (at : StoreRevision)
    → is_empty request.mutations ≡ false
    → get request.run_id store.runs ≡ some s
    → get request.idempotency_key s.idempotency ≡ some (request.mutations, at)
    → commit store request ≡ (store, ok (record { revision = s.revision; replayed = true }))
unfolding commit commit_run
replays_at store request s at full found used =
    rw (full, commit) (rw found (rw (used, commit_run) (rw (if_pos _ refl) refl)))

not_empty_of_ok :
    (store store' : InMemoryDurableStore) (request : CommitRequest) (r : CommitResult)
    → commit store request ≡ (store', ok r)
    → is_empty request.mutations ≡ false
unfolding commit
not_empty_of_ok store store' request r e = elim (Bool-cases (is_empty request.mutations)) [
  | inr f ↦ f
  | inl f ↦ absurd (ground arith)
]

Used-Applied :
    (store store' : InMemoryDurableStore) (request : CommitRequest) (revision : StoreRevision)
    (s : DurableRunState)
    → Applied store request store' revision s
    → Used request store'
Used-Applied store store' request revision s k = record {
  state = seal k.candidate request revision;
  at_revision = revision;
  found = ground (
    arith,
    k.stored,
    get-insert request.run_id request.run_id (seal k.candidate request revision) store.runs,
    ==_refl request.run_id,
  );
  used = ground (
    arith,
    get-insert request.idempotency_key request.idempotency_key (request.mutations, revision)
        k.candidate.idempotency,
    ==_refl request.idempotency_key,
  );
}

Used-committed :
    (store store' : InMemoryDurableStore) (request : CommitRequest) (r : CommitResult)
    → Commits store request (store', ok r)
    → Used request store'
Used-committed store store' request r (s, found, inl (_, k)) =
    Used-Applied store store' request r.revision s k
Used-committed store store' request r (s, found, inr (_, same, k)) = record {
  state = s;
  at_revision = k.at_revision;
  found = ground arith;
  used = k.same_mutations;
}

after-Applied-Used :
    (store store' : InMemoryDurableStore) (request other : CommitRequest) (revision : StoreRevision)
    (s : DurableRunState)
    → get other.run_id store.runs ≡ some s
    → Applied store other store' revision s
    → Used request store
    → Used request store'
after-Applied-Used store store' request other revision s found k u =
    let after =
      get-insert request.run_id other.run_id (seal k.candidate other revision) store.runs in
    elim (Bool-cases (other.run_id == request.run_id)) [
      | inr e ↦ record {
        state = u.state;
        at_revision = u.at_revision;
        found = ground (arith, k.stored, after, e, u.found);
        used = u.used;
      }
      | inl e ↦ record {
        state = seal k.candidate other revision;
        at_revision = u.at_revision;
        found = ground (arith, k.stored, after, e);
        used = ground (
          arith,
          get-insert request.idempotency_key other.idempotency_key (other.mutations, revision)
              k.candidate.idempotency,
          ==_iff other.idempotency_key request.idempotency_key,
          ==_iff other.run_id request.run_id,
          k.new_key,
          k.same_keys,
          u.used,
          u.found,
          found,
        );
      }
    ]

after_commit-Used :
    (store : InMemoryDurableStore) (request other : CommitRequest)
    (p : InMemoryDurableStore × Result StoreError CommitResult)
    → Commits store other p
    → Used request store
    → Used request p.0
after_commit-Used store request other (store', ok r) (s, found, inl (_, k)) u =
    after-Applied-Used store store' request other r.revision s found k u
after_commit-Used store request other (store', ok r) (s, found, inr (_, same, k)) u =
    subst (Used request) (sym same) u
after_commit-Used store request other (store', err e) (same, _) u =
    subst (Used request) (sym same) u
after_commit-Used store request other (store', panic) c u = absurd c
after_commit-Used store request other (store', out_of_fuel) c u = absurd c

after_create-Used :
    (store : InMemoryDurableStore) (request : CommitRequest) (run : RunId)
    → Used request store
    → Used request (create_run store run).0
unfolding create_run
after_create-Used store request run u = elim (Option-cases (get run store.runs)) [
  | inr (s, e) ↦ rw (e, create_run) u
  | inl e ↦
      rw (e, create_run)
        (record {
          state = u.state;
          at_revision = u.at_revision;
          found = ground (
            arith,
            get-insert request.run_id run (State.new run) store.runs,
            ==_iff run request.run_id,
            e,
            u.found,
          );
          used = u.used;
        })
]

Later-Used :
    {store later : InMemoryDurableStore} (request : CommitRequest)
    → Later store later
    → Used request store
    → Used request later
Later-Used request now u = u
Later-Used request (after_create {t} run l) u =
    after_create-Used t request run (Later-Used request l u)
Later-Used request (after_commit {t} other l) u =
    after_commit-Used t request other (commit t other) (commit-Commits t other)
      (Later-Used request l u)

-- A commit that succeeded and is sent again, whatever was created or committed in between, is
-- answered as a replay with the current revision of its run, and the store stays as it is.
pub commit_again :
    (store : InMemoryDurableStore) {later : InMemoryDurableStore} (request : CommitRequest)
    (r : CommitResult)
    → (commit store request).1 ≡ ok r
    → Later (commit store request).0 later
    → (s : DurableRunState) × (get request.run_id later.runs ≡ some s)
      × (commit later request ≡ (later, ok (record { revision = s.revision; replayed = true })))
commit_again store {later} request r e l =
    let store' = (commit store request).0 in
    let answer : commit store request ≡ (store', ok r) = λ i. (store', e i) in
    let full = not_empty_of_ok store store' request r answer in
    let u = Later-Used request l (
      Used-committed store store' request r
        (subst (Commits store request) answer (commit-Commits store request))) in
    (u.state, u.found, replays_at later request u.state u.at_revision full u.found u.used)
