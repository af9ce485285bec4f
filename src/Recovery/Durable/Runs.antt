-- ===== src/Recovery/Durable/Runs.antt =====
-- What holds of a run's state through all later calls of the store.
use graph_core.Base.{◌≡◌, sym, subst, ◌⊎◌, inl, inr, none, some, arith, Bool-cases, Option-cases}
use graph_core.Base.Results.{Result, ok, err, panic, out_of_fuel}
use graph_core.Base.Order.{◌==◌, ==_iff}
use graph_core.Base.BTreeMap.{get, get-insert}
use graph_core.Recovery.Durable.Facts.{
  RunId, run_ord, StoreRevision, DurableMutation, CommitRequest, CommitResult, StoreError,
}
use graph_core.Recovery.Durable.State.{DurableRunState}
use graph_core.Recovery.Durable.State
use graph_core.Recovery.Durable.Accepted.{Accepted, Yields}
use graph_core.Recovery.Durable.Store.{InMemoryDurableStore, create_run, commit}
use graph_core.Recovery.Durable.Commits.{Commits, commit-Commits, Applied, seal, apply_all_keeps}
use graph_core.Recovery.Durable.Replays.{Later, now, after_create, after_commit}

-- A property of run states that mutations keep and that does not look at revision and keys.
pub record IsKept (P : DurableRunState → Type 0) : Type 0 where
  pub by_mutation :
      (s : DurableRunState) (m : DurableMutation) (s' : DurableRunState)
      → Accepted s m s'
      → P s
      → P s'
  pub by_seal :
      (s : DurableRunState) (request : CommitRequest) (revision : StoreRevision)
      → P s
      → P (seal s request revision)

-- The run has the property, or will have it once it is created.
abbrev pub Holds : (DurableRunState → Type 0) → RunId → InMemoryDurableStore → Type 0
Holds P run store =
    ((get run store.runs ≡ none) × P (State.new run))
    ⊎ ((s : DurableRunState) × (get run store.runs ≡ some s) × P s)

module _ (P : DurableRunState → Type 0) (kept : IsKept P) (run : RunId) where
  after_create-Holds :
      (store : InMemoryDurableStore) (other : RunId)
      → Holds P run store
      → Holds P run (create_run store other).0
  unfolding create_run
  after_create-Holds store other h = elim (Option-cases (get other store.runs)) [
    | inr (s, e) ↦ rw (e, create_run) h
    | inl e ↦
        rw (e, create_run)
          (elim (Bool-cases (other == run)) [
            | inr n ↦ elim h [
              | inl (free, p) ↦
                  inl (ground (arith, get-insert run other (State.new other) store.runs), p)
              | inr (s, found, p) ↦
                  inr (s, ground (arith, get-insert run other (State.new other) store.runs), p)
            ]
            | inl y ↦ elim h [
              | inl (free, p) ↦ inr (
                State.new run,
                ground (arith, get-insert run other (State.new other) store.runs, ==_iff other run),
                p,
              )
              | inr (s, found, p) ↦ absurd (ground (arith, ==_iff other run))
            ]
          ])
  ]

  after-Applied-Holds :
      (store store' : InMemoryDurableStore) (request : CommitRequest) (revision : StoreRevision)
      (s : DurableRunState)
      → get request.run_id store.runs ≡ some s
      → Applied store request store' revision s
      → Holds P run store
      → Holds P run store'
  after-Applied-Holds store store' request revision s found k h =
      let state = seal k.candidate request revision in
      let after = get-insert run request.run_id state store.runs in
      elim (Bool-cases (request.run_id == run)) [
        | inr n ↦ elim h [
          | inl (free, p) ↦ inl (ground (arith, k.stored, after), p)
          | inr (t, at, p) ↦ inr (t, ground (arith, k.stored, after), p)
        ]
        | inl y ↦ elim h [
          | inl (free, p) ↦ absurd (ground (arith, ==_iff request.run_id run))
          | inr (t, at, p) ↦
              let same : t ≡ s = ground (arith, ==_iff request.run_id run) in
              inr (
                state,
                ground (arith, k.stored, after),
                kept.by_seal k.candidate request revision (
                    subst (Yields P) k.applied
                      (apply_all_keeps P kept.by_mutation s request.mutations (subst P same p))),
              )
        ]
      ]

  after_commit-Holds :
      (store : InMemoryDurableStore) (request : CommitRequest)
      (p : InMemoryDurableStore × Result StoreError CommitResult)
      → Commits store request p
      → Holds P run store
      → Holds P run p.0
  after_commit-Holds store request (store', ok r) (s, found, inl (_, k)) h =
      after-Applied-Holds store store' request r.revision s found k h
  after_commit-Holds store request (store', ok r) (s, found, inr (_, same, k)) h =
      subst (Holds P run) (sym same) h
  after_commit-Holds store request (store', err e) (same, _) h = subst (Holds P run) (sym same) h
  after_commit-Holds store request (store', panic) c h = absurd c
  after_commit-Holds store request (store', out_of_fuel) c h = absurd c

  pub Later-Holds :
      {store later : InMemoryDurableStore}
      → Later store later
      → Holds P run store
      → Holds P run later
  Later-Holds now h = h
  Later-Holds (after_create {t} other l) h = after_create-Holds t other (Later-Holds l h)
  Later-Holds (after_commit {t} request l) h =
      after_commit-Holds t request (commit t request) (commit-Commits t request) (Later-Holds l h)
