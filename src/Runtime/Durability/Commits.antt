-- ===== src/Runtime/Durability/Commits.antt =====
-- `commit_durable` of one mutation.
use graph_core.Base.{
  ◌≡◌, refl, subst, ◌⊎◌, inl, inr, List, [], ◌∷◌, some, arith, All, Bool-cases, is_empty,
}
use graph_core.Base.Results.{Result, ok, err, panic, out_of_fuel}
use graph_core.Base.Order.{◌==◌, ==_refl}
use graph_core.Base.BTreeMap.{get, get-insert}
use graph_core.Core.Ident.{Text, trim}
use graph_core.Recovery.Durable.Facts.{
  RunId, run_ord, StoreRevision, IdempotencyKey, key_ord, idempotency_key_new, DurableMutation,
  CommitRequest, CommitResult, StoreError,
}
use graph_core.Recovery.Durable.State.{DurableRunState}
use graph_core.Recovery.Durable.Mutation.{apply_mutation}
use graph_core.Recovery.Durable.Accepted.{Accepted, Yields, apply_mutation-Yields}
use graph_core.Recovery.Durable.Store.{InMemoryDurableStore, apply_all}
use graph_core.Recovery.Durable.Commits.{Commits, commit-Commits, Applied, Replayed, seal}
use graph_core.Recovery.Durable.Lineage.{Lineage, All-map}
use graph_core.Recovery.Durable.Lineage.Kept.{Lineage-IsKept}
use graph_core.Runtime.State.{Runtime, store}
use graph_core.Runtime.Action.{Outcome, onward, convert}
use graph_core.Runtime.Commit.{commit_request, commit_durable}
use graph_core.Runtime.Durability.Recorded.{
  Recorded, Keeps, Recorded-Keeps, Accepted-Keeps, Accepted-Recorded,
}

-- The runtime knows the revision of its run, and the run remembers only mutations that it holds.
pub record StoredRun (run_id : RunId) (store : InMemoryDurableStore) (revision : StoreRevision)
    (s : DurableRunState) : Type 0 where
  pub found : get run_id store.runs ≡ some s
  pub head : revision ≡ s.revision
  pub lineage : Lineage s
  pub remembered :
      (key : IdempotencyKey) (ms : List DurableMutation) (revision : StoreRevision)
      → get key s.idempotency ≡ some (ms, revision)
      → All (Recorded s) ms

-- The mutation was there already, or it is accepted now.
abbrev pub Took : DurableRunState → DurableMutation → DurableRunState → Type 0
Took s m s' =
    ((s' ≡ s) × Recorded s m)
    ⊎ ((c : DurableRunState) × Accepted s m c
        × ((request : CommitRequest) × (revision : StoreRevision) × (s' ≡ seal c request revision)))

abbrev pub Stored : Runtime → DurableRunState → Type 0
Stored r = StoredRun r.run_id r.store r.store_revision

-- A commit writes store and revision and nothing else; a refused one writes nothing.
abbrev pub Committed : DurableMutation → Runtime → DurableRunState → Outcome StoreRevision → Type 0
Committed m r s (r', ok _) =
    (s' : DurableRunState) × Stored r' s'
    × Took s m s'
    × (r' ≡ record r { store = r'.store; store_revision = r'.store_revision })
Committed m r s (r', err _) = r' ≡ r
Committed m r s (r', panic) = ⊥
Committed m r s (r', out_of_fuel) = ⊥

applied_one :
    (s : DurableRunState) (m : DurableMutation) (c : DurableRunState)
    → apply_all s (m ∷ []) ≡ ok c
    → Accepted s m c
unfolding apply_all
applied_one s m c e = by_result (apply_mutation s m) refl (apply_mutation-Yields s m)
  where
    by_result :
        (r : Result StoreError DurableRunState)
        → apply_mutation s m ≡ r
        → Yields (Accepted s m) r
        → Accepted s m c
    by_result (ok d) p y = let same : d ≡ c = ground arith in subst (Accepted s m) same y
    by_result (err _) p y = absurd (ground arith)
    by_result panic p y = absurd (ground arith)
    by_result out_of_fuel p y = absurd (ground arith)

seal-Keeps :
    (c : DurableRunState) (request : CommitRequest) (revision : StoreRevision)
    → Keeps c (seal c request revision)
seal-Keeps c request revision = record {
  admissions = λ _ _ h. h;
  intents = λ _ _ h. h;
  cancellations = λ _ _ h. h;
  dispatches = λ _ _ h. h;
  outcomes = λ _ _ h. h;
}

module _ (m : DurableMutation) (r : Runtime) (s : DurableRunState) (stored : Stored r s)
    (key : IdempotencyKey) where
  abbrev request_of : CommitRequest
  request_of = record {
    run_id = r.run_id;
    expected_revision = r.store_revision;
    idempotency_key = key;
    mutations = m ∷ [];
  }

  -- The new state after a first commit.
  module _ (store' : InMemoryDurableStore) (revision : StoreRevision)
      (k : Applied r.store request_of store' revision s) where
    accepted : Accepted s m k.candidate
    accepted = applied_one s m k.candidate k.applied

    still_remembered :
        (other : IdempotencyKey) (ms : List DurableMutation) (at : StoreRevision)
        → get other (seal k.candidate request_of revision).idempotency ≡ some (ms, at)
        → All (Recorded (seal k.candidate request_of revision)) ms
    still_remembered other ms at e =
        let sealed = seal-Keeps k.candidate request_of revision in
        let after = get-insert other key (m ∷ [], revision) k.candidate.idempotency in
        elim (Bool-cases (key == other)) [
          | inl same ↦
              let here : m ∷ [] ≡ ms = ground (arith, after) in
              subst (All (Recorded (seal k.candidate request_of revision))) here (
                Recorded-Keeps k.candidate (seal k.candidate request_of revision) m sealed
                    (Accepted-Recorded s m k.candidate accepted),
                tt,
              )
          | inr new ↦
              let before : get other s.idempotency ≡ some (ms, at) =
                ground (arith, after, k.same_keys) in
              All-map (Recorded s) (Recorded (seal k.candidate request_of revision)) ms
                (λ x h.
                  Recorded-Keeps k.candidate (seal k.candidate request_of revision) x sealed
                    (Recorded-Keeps s k.candidate x (Accepted-Keeps s m k.candidate accepted) h))
                (stored.remembered other ms at before)
        ]

    applied-Stored :
        Stored
          (record r { store = store'; store_revision = revision })
          (seal k.candidate request_of revision)
    applied-Stored = record {
      found = ground (
        arith,
        k.stored,
        get-insert r.run_id r.run_id (seal k.candidate request_of revision) r.store.runs,
        ==_refl r.run_id,
      );
      head = refl;
      lineage =
          Lineage-IsKept.by_seal k.candidate request_of revision
            (Lineage-IsKept.by_mutation s m k.candidate accepted stored.lineage);
      remembered = still_remembered;
    }

  -- The runtime after the store has answered.
  after_store : InMemoryDurableStore × Result StoreError CommitResult → Outcome StoreRevision
  after_store (store', result) =
      onward (record r { store = store' }) (convert store result)
        (λ a t. (record t { store_revision = a.revision }, ok a.revision))

  after_store-Committed :
      (p : InMemoryDurableStore × Result StoreError CommitResult)
      → Commits r.store request_of p
      → Committed m r s (after_store p)
  unfolding after_store
  after_store-Committed (store', ok a) (t, found, inl (_, k)) =
      let same : t ≡ s = ground (arith, stored.found) in
      let k' : Applied r.store request_of store' a.revision s =
        subst (Applied r.store request_of store' a.revision) same k in
      (
        seal k'.candidate request_of a.revision,
        applied-Stored store' a.revision k',
        inr (k'.candidate, accepted store' a.revision k', (request_of, a.revision, refl)),
        refl,
      )
  after_store-Committed (store', ok a) (t, found, inr (_, same, k)) =
      let at : t ≡ s = ground (arith, stored.found) in
      let k' : Replayed request_of a.revision s = subst (Replayed request_of a.revision) at k in
      (
        s,
        record {
          found = ground (arith, same, stored.found);
          head = k'.head;
          lineage = stored.lineage;
          remembered = stored.remembered;
        },
        inl (refl, (stored.remembered key (m ∷ []) k'.at_revision k'.same_mutations).0),
        refl,
      )
  after_store-Committed (store', err e) (same, _) = λ i. record r { store = same i }
  after_store-Committed (store', panic) c = c
  after_store-Committed (store', out_of_fuel) c = c

pub commit_durable-Committed :
    (key : Text) (m : DurableMutation) (r : Runtime) (s : DurableRunState)
    → Stored r s
    → Committed m r s (commit_durable key (m ∷ []) r)
unfolding commit_durable commit_request idempotency_key_new after_store
commit_durable-Committed key m r s stored = elim (Bool-cases (is_empty (trim key))) [
  | inl e ↦ rw (e, commit_durable) refl
  | inr e ↦
      let k : IdempotencyKey = record { value = key } in
      rw (e, commit_durable)
        (after_store-Committed m r s stored k _
          (commit-Commits r.store (request_of m r s stored k)))
]
