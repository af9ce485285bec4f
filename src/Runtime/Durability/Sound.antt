-- ===== src/Runtime/Durability/Sound.antt =====
-- The invariant of the runtime, and what a persisted fact does to it.
use graph_core.Base.{◌≤◌, ◌≡◌, refl, sym, ap, subst, ◌∙◌, [], ◌∷◌, some, length}
use graph_core.Base.Results.{ok, err, panic, out_of_fuel}
use graph_core.Base.BTreeMap.{BTreeSet, get, contains_key, values}
use graph_core.Core.Ident.{Text, Ident, ident_ord}
use graph_core.Recovery.Model.{
  OperationId, operation_ord, attempt_ord, EffectIntent, non_idempotent,
}
use graph_core.Recovery.Journal.{DurableJournal, Update, attempts}
use graph_core.Recovery.Journal.Invariant.{IsValid}
use graph_core.Base.Lookup.{find_by}
use graph_core.Recovery.Durable.Facts.{CancellationRecord, RunId, StoreRevision, DurableMutation}
use graph_core.Recovery.Durable.State.{DurableRunState, is_cancelled}
use graph_core.Recovery.Durable.Store.{InMemoryDurableStore}
use graph_core.Recovery.Durable.Agreement.{SameFacts}
use graph_core.Runtime.State.{Runtime}
use graph_core.Runtime.Action.{Outcome, Action, onward}
use graph_core.Runtime.Commit.{commit_durable, persist_fact}
use graph_core.Runtime.Durability.Commits.{StoredRun, Took, Committed, commit_durable-Committed}
use graph_core.Runtime.Durability.Persists.{Persisted}

-- An effect that may not be repeated has at most one dispatch.
abbrev pub DispatchedOnce : DurableJournal → Type 0
DispatchedOnce j =
    (op : OperationId) (i : EffectIntent)
    → get op j.intents ≡ some i
    → i.semantics ≡ non_idempotent
    → length (attempts j op) ≤ 1

-- An effect that may not be repeated has no dispatch yet.
abbrev pub MayDispatch : DurableJournal → OperationId → Type 0
MayDispatch j op =
    (i : EffectIntent)
    → get op j.intents ≡ some i
    → i.semantics ≡ non_idempotent
    → attempts j op ≡ []

abbrev pub cancelled_task : CancellationRecord → Ident
cancelled_task c = c.task_id

-- Every cancellation is found under its task.
abbrev pub CancelledByTask : DurableRunState → Type 0
CancelledByTask s =
    (t : Ident) → get t s.cancellations ≡ find_by cancelled_task t (values s.cancellations)

pub record Holds (run_id : RunId) (store : InMemoryDurableStore) (revision : StoreRevision)
    (j : DurableJournal) (cancelled : BTreeSet Ident) : Type 0 where
  pub run : DurableRunState
  pub stored : StoredRun run_id store revision run
  pub facts : SameFacts run j
  pub withdrawn : (t : Ident) → contains_key t cancelled ≡ is_cancelled run t
  pub keyed : CancelledByTask run
  pub valid : IsValid j
  pub once : DispatchedOnce j

-- The runtime's journal and its cancelled tasks are those of its run in the store, the journal's
-- lineage is sound, and no effect that may not be repeated is dispatched twice.
abbrev pub Sound : Runtime → Type 0
Sound r = Holds r.run_id r.store r.store_revision r.journal r.cancelled

-- How an action ends: without a panic and with fuel left, with `Q` if it succeeds and else `P`.
abbrev pub Ends : {A : Type 0} → (Runtime → Type 0) → (A → Runtime → Type 0) → Outcome A → Type 0
Ends P Q (r, ok a) = Q a r
Ends P Q (r, err _) = P r
Ends P Q (r, panic) = ⊥
Ends P Q (r, out_of_fuel) = ⊥

module _ {A B : Type 0} where
  pub Ends-onward :
      (P : Runtime → Type 0) (Q : A → Runtime → Type 0) (R : B → Runtime → Type 0) (o : Outcome A)
      (f : A → Action B)
      → Ends P Q o
      → ((a : A) (r : Runtime) → Q a r → Ends P R (f a r))
      → Ends P R (onward o.0 o.1 f)
  Ends-onward P Q R (r, ok a) f h k = k a r h
  Ends-onward P Q R (r, err _) f h k = h
  Ends-onward P Q R (r, panic) f h k = h
  Ends-onward P Q R (r, out_of_fuel) f h k = h

module _ {A : Type 0} where
  pub Ends-weaken :
      (P P' : Runtime → Type 0) (Q Q' : A → Runtime → Type 0) (o : Outcome A)
      → ((r : Runtime) → P r → P' r)
      → ((a : A) (r : Runtime) → Q a r → Q' a r)
      → Ends P Q o
      → Ends P' Q' o
  Ends-weaken P P' Q Q' (r, ok a) f g h = g a r h
  Ends-weaken P P' Q Q' (r, err _) f g h = f r h
  Ends-weaken P P' Q Q' (r, panic) f g h = h
  Ends-weaken P P' Q Q' (r, out_of_fuel) f g h = h

-- The new journal and the new state of the run agree, and no cancellation is added.
pub record Follows (s s' : DurableRunState) (k : DurableJournal) : Type 0 where
  pub facts : SameFacts s' k
  pub cancellations : s'.cancellations ≡ s.cancellations
  pub valid : IsValid k
  pub once : DispatchedOnce k

-- What differs after an effect fact: store, revision and journal.
abbrev pub OnlyFacts : Runtime → Runtime → Type 0
OnlyFacts r r' =
    r' ≡ record r { store = r'.store; store_revision = r'.store_revision; journal = r'.journal }

module _ (persist : DurableJournal → Update) (key : Text) (m : DurableMutation) (r : Runtime)
    (sound : Sound r) (Q : DurableJournal → Type 0)
    (follows : (s' : DurableRunState) (k : DurableJournal)
      → Q k
      → Took sound.run m s'
      → Follows sound.run s' k) where
  Committed-Sound :
      (k : DurableJournal) (o : Outcome StoreRevision)
      → Q k
      → Committed m r sound.run o
      → Ends
          (λ r'. r' ≡ r)
          (λ _ r'. Sound r' × Q r'.journal × OnlyFacts r r')
          (onward o.0 o.1 (λ _ s. (record s { journal = k }, ok tt)))
  unfolding is_cancelled
  Committed-Sound k (r', ok _) q (s', stored, took, e) =
      let f = follows s' k q took in
      (
        record {
          run = s';
          stored = stored;
          facts = f.facts;
          withdrawn = λ t.
              subst (λ x. contains_key t x ≡ is_cancelled s' t)
                (ap (λ (x : Runtime). x.cancelled) (sym e))
                (sound.withdrawn t ∙ sym (ap (contains_key t) f.cancellations));
          keyed = rw (f.cancellations) sound.keyed;
          valid = f.valid;
          once = f.once;
        },
        q,
        λ i. record (e i) { journal = k },
      )
  Committed-Sound k (r', err _) q c = c
  Committed-Sound k (r', panic) q c = c
  Committed-Sound k (r', out_of_fuel) q c = c

  pub persist_fact-Ends :
      Persisted Q (persist r.journal)
      → Ends
          (λ r'. r' ≡ r)
          (λ _ r'. Sound r' × Q r'.journal × OnlyFacts r r')
          (persist_fact persist key m r)
  unfolding persist_fact
  persist_fact-Ends p = by_result (persist r.journal) refl p
    where
      by_result :
          (u : Update)
          → persist r.journal ≡ u
          → Persisted Q u
          → Ends
              (λ r'. r' ≡ r)
              (λ _ r'. Sound r' × Q r'.journal × OnlyFacts r r')
              (persist_fact persist key m r)
      by_result (ok k) e q =
          rw (e, persist_fact)
            (Committed-Sound k (commit_durable key (m ∷ []) r) q
              (commit_durable-Committed key m r sound.run sound.stored))
      by_result (err _) e q = rw (e, persist_fact) refl
      by_result panic e q = absurd q
      by_result out_of_fuel e q = absurd q
