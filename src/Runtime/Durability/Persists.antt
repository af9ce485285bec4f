-- ===== src/Runtime/Durability/Persists.antt =====
-- A fact that journal and store both take leaves them with the same facts.
use graph_core.Base.{
  ◌≡◌, refl, ap, ◌⊎◌, inl, inr, Bool, List, [], ◌∷◌, ◌++◌, none, some, arith, Bool-cases,
  Option-cases, if_pos, if_neg, filter, map, if◌then◌else◌,
}
use graph_core.Base.Results.{ok, err, panic, out_of_fuel}
use graph_core.Base.Order.{◌==◌, ==_iff}
use graph_core.Base.BTreeMap.{get, insert, contains_key, get-insert}
use graph_core.Core.Ident.{ident_ord}
use graph_core.Recovery.Model.{
  operation_ord, attempt_ord, EffectIntent, DispatchRecord, OutcomeRecord,
  KnownEffectOutcome-discrete,
}
use graph_core.Recovery.Journal.{
  DurableJournal, Update, attempts, persist_intent, persist_dispatch, settle_outcome,
  persist_outcome,
}
use graph_core.Recovery.Journal.Invariant.{attempts-dispatch}
use graph_core.Recovery.Durable.Facts.{CommitRequest, StoreRevision}
use graph_core.Recovery.Durable.State.{DurableRunState, dispatches}
use graph_core.Recovery.Durable.Commits.{seal}
use graph_core.Recovery.Durable.Lineage.{dispatch_attempt}
use graph_core.Recovery.Durable.Agreement.{SameFacts}

abbrev pub Persisted : (DurableJournal → Type 0) → Update → Type 0
Persisted Q (ok k) = Q k
Persisted Q (err _) = Unit
Persisted Q panic = ⊥
Persisted Q out_of_fuel = ⊥

abbrev pub with_intent : DurableJournal → EffectIntent → DurableJournal
with_intent j i = record j {
  task_operations = insert i.task_id i.operation_id j.task_operations;
  intents = insert i.operation_id i j.intents;
}

abbrev pub with_dispatch : DurableJournal → DispatchRecord → DurableJournal
with_dispatch j d = record j {
  operation_attempts =
      insert d.operation_id (attempts j d.operation_id ++ d.attempt_id ∷ []) j.operation_attempts;
  dispatches = insert d.attempt_id d j.dispatches;
}

pub intent-Persisted :
    (j : DurableJournal) (i : EffectIntent)
    → Persisted
        (λ k. (get i.operation_id j.intents ≡ none) × (k ≡ with_intent j i))
        (persist_intent j i)
unfolding persist_intent
intent-Persisted j i = elim (Option-cases (get i.operation_id j.intents)) [
  | inr (x, e) ↦ rw (e, persist_intent) tt
  | inl e ↦ elim (Option-cases (get i.task_id j.task_operations)) [
    | inr (op, k) ↦ rw (e, k, persist_intent) tt
    | inl k ↦ rw (e, k, persist_intent) (refl, refl)
  ]
]

pub dispatch-Persisted :
    (j : DurableJournal) (d : DispatchRecord)
    → Persisted
        (λ k. (get d.attempt_id j.dispatches ≡ none) × (k ≡ with_dispatch j d))
        (persist_dispatch j d)
unfolding persist_dispatch
dispatch-Persisted j d = elim (Bool-cases (contains_key d.operation_id j.intents)) [
  | inr e ↦ rw (e, persist_dispatch) tt
  | inl e ↦ elim (Option-cases (get d.attempt_id j.dispatches)) [
    | inr (x, k) ↦ rw (e, k, persist_dispatch) tt
    | inl k ↦ rw (e, k, persist_dispatch) (refl, refl)
  ]
]

abbrev pub Settled : DurableJournal → OutcomeRecord → DurableJournal → Type 0
Settled j o k =
    ((e : OutcomeRecord) × (get o.attempt_id j.outcomes ≡ some e) × (k ≡ j))
    ⊎ ((get o.attempt_id j.outcomes ≡ none)
        × (k ≡ record j { outcomes = insert o.attempt_id o j.outcomes }))

settle-Persisted :
    (j : DurableJournal) (o : OutcomeRecord) → Persisted (Settled j o) (settle_outcome j o)
unfolding settle_outcome
settle-Persisted j o = elim (Option-cases (get o.attempt_id j.outcomes)) [
  | inr (x, k) ↦ elim (KnownEffectOutcome-discrete x.outcome o.outcome) [
    | yes p ↦ rw (k, settle_outcome) (rw (if_pos _ p) (inl (x, k, refl)))
    | no p ↦ rw (k, settle_outcome) (rw (if_neg _ p) tt)
  ]
  | inl k ↦ rw (k, settle_outcome) (inr (k, refl))
]

pub outcome-Persisted :
    (j : DurableJournal) (o : OutcomeRecord) → Persisted (Settled j o) (persist_outcome j o)
unfolding persist_outcome
outcome-Persisted j o = elim (Bool-cases (contains_key o.operation_id j.intents)) [
  | inr e ↦ rw (e, persist_outcome) tt
  | inl e ↦ elim (Option-cases (get o.attempt_id j.dispatches)) [
    | inl k ↦ rw (e, k, persist_outcome) tt
    | inr (d, k) ↦ elim (Bool-cases (d.operation_id == o.operation_id)) [
      | inr q ↦ rw (e, k, persist_outcome) (rw q tt)
      | inl q ↦ rw (e, k, persist_outcome) (rw q (settle-Persisted j o))
    ]
  ]
]

-- Sealing a run's state changes none of the facts.
pub seal-SameFacts :
    (c : DurableRunState) (request : CommitRequest) (revision : StoreRevision) (j : DurableJournal)
    → SameFacts c j
    → SameFacts (seal c request revision) j
unfolding dispatches
seal-SameFacts c request revision j h = record {
  same_intents = h.same_intents;
  same_dispatches = h.same_dispatches;
  same_attempts = h.same_attempts;
  same_outcomes = h.same_outcomes;
}

filter-concat :
    {A : Type 0} (p : A → Bool) (xs : List A) (x : A)
    → filter p (xs ++ x ∷ []) ≡ (if p x then filter p xs ++ x ∷ [] else filter p xs)
unfolding filter
filter-concat p [] x = ground arith
filter-concat p (y ∷ xs) x = ground (arith, filter-concat p xs x)

map-concat :
    {A B : Type 0} (f : A → B) (xs : List A) (x : A) → map f (xs ++ x ∷ []) ≡ map f xs ++ f x ∷ []
map-concat f [] x = refl
map-concat f (y ∷ xs) x = ap (◌∷◌ (f y)) (map-concat f xs x)

module _ (s : DurableRunState) (j : DurableJournal) (h : SameFacts s j) where
  pub intent-SameFacts :
      (i : EffectIntent)
      → SameFacts
          (record s {
            task_operations = insert i.task_id i.operation_id s.task_operations;
            intents = insert i.operation_id i s.intents;
          })
          (with_intent j i)
  unfolding dispatches
  intent-SameFacts i = record {
    same_intents = λ op. ground (
      arith,
      get-insert op i.operation_id i j.intents,
      get-insert op i.operation_id i s.intents,
      h.same_intents op,
    );
    same_dispatches = h.same_dispatches;
    same_attempts = h.same_attempts;
    same_outcomes = h.same_outcomes;
  }

  pub dispatch-SameFacts :
      (d : DispatchRecord)
      → SameFacts
          (record s {
            dispatches = insert d.attempt_id d s.dispatches;
            dispatch_history = s.dispatch_history ++ d ∷ [];
          })
          (with_dispatch j d)
  unfolding dispatches
  dispatch-SameFacts d = record {
    same_intents = h.same_intents;
    same_dispatches = λ a. ground (
      arith,
      get-insert a d.attempt_id d j.dispatches,
      get-insert a d.attempt_id d s.dispatches,
      h.same_dispatches a,
    );
    same_attempts = λ op. ground (
      arith,
      attempts-dispatch j d op,
      h.same_attempts op,
      h.same_attempts d.operation_id,
      ==_iff d.operation_id op,
      filter-concat (λ x. x.operation_id == op) s.dispatch_history d,
      map-concat dispatch_attempt (filter (λ x. x.operation_id == op) s.dispatch_history) d,
    );
    same_outcomes = h.same_outcomes;
  }

  pub outcome-SameFacts :
      (o : OutcomeRecord)
      → SameFacts
          (record s {
            outcomes = insert o.attempt_id o s.outcomes;
            outcome_history = s.outcome_history ++ o ∷ [];
          })
          (record j { outcomes = insert o.attempt_id o j.outcomes })
  unfolding dispatches
  outcome-SameFacts o = record {
    same_intents = h.same_intents;
    same_dispatches = h.same_dispatches;
    same_attempts = h.same_attempts;
    same_outcomes = λ a. ground (
      arith,
      get-insert a o.attempt_id o j.outcomes,
      get-insert a o.attempt_id o s.outcomes,
      h.same_outcomes a,
    );
  }
