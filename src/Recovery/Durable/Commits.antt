-- ===== src/Recovery/Durable/Commits.antt =====
-- `commit`: compare-and-swap, atomicity and idempotent replay.
use graph_core.Base.{
  ◌≡◌, refl, ◌⊎◌, inl, inr, true, false, List, [], ◌∷◌, none, some, is_empty, if_pos, if_neg, arith,
  Bool-cases, Option-cases,
}
use graph_core.Base.Results.{Result, ok, err, panic, out_of_fuel}
use graph_core.Base.Order.{◌==◌, ==_iff}
use graph_core.Base.BTreeMap.{get, insert}
use graph_core.Recovery.Durable.Facts.{
  run_ord, StoreRevision, store_revision_ord, key_ord, checked_next, DurableMutation,
  mutations-discrete, CommitRequest, CommitResult, StoreError, run_not_found, run_already_exists,
  revision_conflict, idempotency_conflict, empty_idempotency_key, empty_commit, invariant_violation,
  revision_exhausted, admit_attempt, record_intent, record_cancellation, record_dispatch,
  record_outcome,
}
use graph_core.Recovery.Durable.State.{DurableRunState}
use graph_core.Recovery.Durable.Mutation.{apply_mutation}
use graph_core.Recovery.Durable.Accepted.{Accepted, Yields, apply_mutation-Yields}
use graph_core.Recovery.Durable.Refusals.{Refused}
use graph_core.Recovery.Durable.Store.{
  InMemoryDurableStore, apply_all, commit_new, commit_run, commit,
}

-- The state of the run after a commit, from the candidate that its mutations lead to.
abbrev pub seal : DurableRunState → CommitRequest → StoreRevision → DurableRunState
seal candidate request revision = record candidate {
  revision = revision;
  idempotency = insert request.idempotency_key (request.mutations, revision) candidate.idempotency;
}

-- A first commit under the key.
pub record Applied (store : InMemoryDurableStore) (request : CommitRequest)
    (store' : InMemoryDurableStore) (revision : StoreRevision) (s : DurableRunState) : Type 0 where
  pub new_key : get request.idempotency_key s.idempotency ≡ none
  pub current : request.expected_revision ≡ s.revision
  pub next_revision : checked_next s.revision ≡ some revision
  pub candidate : DurableRunState
  pub applied : apply_all s request.mutations ≡ ok candidate
  pub same_run : candidate.run_id ≡ s.run_id
  pub same_keys : candidate.idempotency ≡ s.idempotency
  pub stored : store'.runs ≡ insert request.run_id (seal candidate request revision) store.runs

-- A repeated commit.
pub record Replayed (request : CommitRequest) (revision : StoreRevision) (s : DurableRunState)
    : Type 0 where
  pub at_revision : StoreRevision
  pub same_mutations :
      get request.idempotency_key s.idempotency ≡ some (request.mutations, at_revision)
  pub head : revision ≡ s.revision

abbrev pub Commits :
    InMemoryDurableStore
    → CommitRequest
    → InMemoryDurableStore × Result StoreError CommitResult
    → Type 0
Commits store request (store', ok r) =
    (s : DurableRunState) × (get request.run_id store.runs ≡ some s)
    × (((r.replayed ≡ false) × Applied store request store' r.revision s)
        ⊎ ((r.replayed ≡ true) × (store' ≡ store) × Replayed request r.revision s))
Commits store request (store', err e) = (store' ≡ store) × Refused store request e
Commits store request (store', panic) = ⊥
Commits store request (store', out_of_fuel) = ⊥

-- What each accepted mutation keeps holds after all of them.
pub apply_all_keeps :
    (P : DurableRunState → Type 0)
    → ((s : DurableRunState) (m : DurableMutation) (s' : DurableRunState)
        → Accepted s m s'
        → P s
        → P s')
    → (s : DurableRunState) (ms : List DurableMutation) → P s
    → Yields P (apply_all s ms)
unfolding apply_all
apply_all_keeps P keep s [] p = p
apply_all_keeps P keep s (m ∷ ms) p =
    by_result (λ s' y. apply_all_keeps P keep s' ms (keep s m s' y p)) (apply_mutation s m) refl
      (apply_mutation-Yields s m)
  where
    by_result :
        ((s' : DurableRunState) → Accepted s m s' → Yields P (apply_all s' ms))
        → (r : Result StoreError DurableRunState) → apply_mutation s m ≡ r
        → Yields (Accepted s m) r
        → Yields P (apply_all s (m ∷ ms))
    by_result later (ok s') e y = rw (e, apply_all) (later s' y)
    by_result later (err x) e y = rw (e, apply_all) y
    by_result later panic e y = absurd y
    by_result later out_of_fuel e y = absurd y

-- Mutations touch neither the identity of the run, nor its revision, nor its keys.
abbrev SameHead : DurableRunState → DurableRunState → Type 0
SameHead s t = (t.run_id ≡ s.run_id) × (t.revision ≡ s.revision) × (t.idempotency ≡ s.idempotency)

Accepted-SameHead :
    (s t : DurableRunState) (m : DurableMutation) (t' : DurableRunState)
    → Accepted t m t'
    → SameHead s t
    → SameHead s t'
Accepted-SameHead s t (admit_attempt a) t' k h = ground arith
Accepted-SameHead s t (record_intent i) t' k h = ground arith
Accepted-SameHead s t (record_cancellation c) t' k h = ground arith
Accepted-SameHead s t (record_dispatch d) t' k h = let e = k.changed in ground arith
Accepted-SameHead s t (record_outcome o) t' k h = let e = k.changed in ground arith

commit_new-Commits :
    (store : InMemoryDurableStore) (s : DurableRunState) (request : CommitRequest)
    → get request.run_id store.runs ≡ some s
    → get request.idempotency_key s.idempotency ≡ none
    → Commits store request (commit_run store s request)
unfolding commit_run commit_new
commit_new-Commits store s request found new_key =
    elim (Bool-cases (request.expected_revision == s.revision)) [
      | inr e ↦
          rw (new_key, commit_run, commit_new)
            (rw e (
              refl,
              (
                refl,
                λ p. ground (arith, ==_iff request.expected_revision s.revision),
                (s, found, refl),
              ),
            ))
      | inl e ↦ elim (Option-cases (checked_next s.revision)) [
        | inl k ↦ rw (new_key, commit_run, commit_new) (rw e (rw k (refl, (k, (s, found, refl)))))
        | inr (revision, k) ↦ by_result e revision k (apply_all s request.mutations) refl (
            apply_all_keeps (SameHead s) (Accepted-SameHead s) s request.mutations
              (refl, refl, refl))
      ]
    ]
  where
    by_result :
        (request.expected_revision == s.revision) ≡ true
        → (revision : StoreRevision) → checked_next s.revision ≡ some revision
        → (r : Result StoreError DurableRunState) → apply_all s request.mutations ≡ r
        → Yields (SameHead s) r
        → Commits store request (commit_run store s request)
    by_result e revision k (ok candidate) a y =
        rw (new_key, commit_run, commit_new)
          (rw e (
            rw k (
              rw a (
                s,
                found,
                inl (
                  refl,
                  record {
                    new_key = new_key;
                    current = (==_iff request.expected_revision s.revision).0 e;
                    next_revision = k;
                    candidate = candidate;
                    applied = a;
                    same_run = y.0;
                    same_keys = y.2;
                    stored = refl;
                  },
                ),
              ))))
    by_result e revision k (err (invariant_violation i)) a y =
        rw (new_key, commit_run, commit_new) (rw e (rw k (rw a (refl, (s, found, a)))))
    by_result e revision k (err (run_not_found r)) a y = absurd y
    by_result e revision k (err (run_already_exists r)) a y = absurd y
    by_result e revision k (err (revision_conflict x z)) a y = absurd y
    by_result e revision k (err (idempotency_conflict x)) a y = absurd y
    by_result e revision k (err empty_idempotency_key) a y = absurd y
    by_result e revision k (err empty_commit) a y = absurd y
    by_result e revision k (err (revision_exhausted c)) a y = absurd y
    by_result e revision k panic a y = absurd y
    by_result e revision k out_of_fuel a y = absurd y

commit_run-Commits :
    (store : InMemoryDurableStore) (s : DurableRunState) (request : CommitRequest)
    → get request.run_id store.runs ≡ some s
    → Commits store request (commit_run store s request)
unfolding commit_run
commit_run-Commits store s request found =
    elim (Option-cases (get request.idempotency_key s.idempotency)) [
      | inl k ↦ commit_new-Commits store s request found k
      | inr ((ms, at), k) ↦ elim (mutations-discrete ms request.mutations) [
        | yes p ↦
            rw (k, commit_run)
              (rw (if_pos _ p) (
                s,
                found,
                inr (
                  refl,
                  refl,
                  record { at_revision = at; same_mutations = ground arith; head = refl },
                ),
              ))
        | no p ↦ rw (k, commit_run) (rw (if_neg _ p) (refl, (refl, (s, (ms, at), found, k, p))))
      ]
    ]

-- A commit returns. It succeeds in two ways: a key that is new to the run is applied if the expected
-- revision is the current one, all mutations are accepted and the revision can advance by one, and
-- then the run is replaced; a key that was used for the same mutations reports the current revision
-- and changes nothing. An error changes nothing either, and its reason holds: no mutations, no such
-- run, a key used for other mutations, a stale or exhausted revision, or a mutation that violates an
-- invariant of the run.
pub commit-Commits :
    (store : InMemoryDurableStore) (request : CommitRequest)
    → Commits store request (commit store request)
unfolding commit
commit-Commits store request = elim (Bool-cases (is_empty request.mutations)) [
  | inl e ↦ rw (e, commit) (refl, e)
  | inr e ↦ elim (Option-cases (get request.run_id store.runs)) [
    | inl k ↦ rw (e, commit) (rw k (refl, (refl, k)))
    | inr (s, k) ↦ rw (e, commit) (rw k (commit_run-Commits store s request k))
  ]
]
