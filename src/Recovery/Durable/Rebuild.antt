-- ===== src/Recovery/Durable/Rebuild.antt =====
-- The three loops of `DurableJournal::from_durable_state`, from any journal they do not clash with.
use graph_core.Base.{
  ◌≡◌, refl, sym, ◌∙◌, inl, inr, true, List, [], ◌∷◌, ◌++◌, map, filter, Option, none, some,
  is_some, All, append-nil, append_assoc, arith, Bool-cases,
}
use graph_core.Base.Results.{ok}
use graph_core.Base.Order.{◌==◌, ==_iff, ==_refl}
use graph_core.Base.BTreeMap.{get, insert, get-insert}
use graph_core.Base.Lookup.{find_by, HasDistinct}
use graph_core.Core.Ident.{Ident, ident_ord}
use graph_core.Recovery.Model.{
  OperationId, AttemptId, operation_ord, attempt_ord, EffectIntent, DispatchRecord, OutcomeRecord,
}
use graph_core.Recovery.Journal.{
  DurableJournal, attempts, persist_intent, persist_dispatch, persist_outcome, settle_outcome,
}
use graph_core.Recovery.Journal.Invariant.{attempts-dispatch}
use graph_core.Recovery.Durable.Store.{persist_all}
use graph_core.Recovery.Durable.Lineage.{
  operation_of, task_of, dispatch_attempt, outcome_attempt, All-map,
}

-- The entry of the list, else that of the map.
abbrev pub or_else {ℓ} : {A : Type ℓ} → Option A → Option A → Option A
or_else (some a) b = some a
or_else none b = b

-- The loop over intents returned `k`.
pub record IntentsAdded (xs : List EffectIntent) (j k : DurableJournal) : Type 0 where
  pub intents :
      (op : OperationId)
      → get op k.intents ≡ or_else (find_by operation_of op xs) (get op j.intents)
  pub dispatches : k.dispatches ≡ j.dispatches
  pub operation_attempts : k.operation_attempts ≡ j.operation_attempts
  pub outcomes : k.outcomes ≡ j.outcomes

pub add_intents :
    (xs : List EffectIntent) (j : DurableJournal)
    → HasDistinct operation_of xs
    → HasDistinct task_of xs
    → ((op : OperationId) → is_some (get op j.intents) ≡ true → find_by operation_of op xs ≡ none)
    → ((t : Ident) → is_some (get t j.task_operations) ≡ true → find_by task_of t xs ≡ none)
    → (k : DurableJournal) × (persist_all persist_intent j xs ≡ ok k) × IntentsAdded xs j k
unfolding persist_all persist_intent find_by
add_intents [] j d t f g = (
  j,
  refl,
  record { intents = λ op. refl; dispatches = refl; operation_attempts = refl; outcomes = refl },
)
add_intents (x ∷ xs) j (n, d) (m, t) f g =
    let p : get x.operation_id j.intents ≡ none =
      ground (arith, f x.operation_id, ==_refl x.operation_id) in
    let q : get x.task_id j.task_operations ≡ none =
      ground (arith, g x.task_id, ==_refl x.task_id) in
    let next : DurableJournal = record j {
      task_operations = insert x.task_id x.operation_id j.task_operations;
      intents = insert x.operation_id x j.intents;
    } in
    let (k, e, a) =
      add_intents xs next d t
        (λ op h.
          ground
            (arith, get-insert op x.operation_id x j.intents, ==_iff x.operation_id op, n, f op, h))
        (λ task h. ground (
          arith,
          get-insert task x.task_id x.operation_id j.task_operations,
          ==_iff x.task_id task,
          m,
          g task,
          h,
        )) in
    (
      k,
      rw (p, q, persist_all, persist_intent) e,
      record {
        intents = λ op. ground (
          arith,
          a.intents op,
          get-insert op x.operation_id x j.intents,
          ==_iff x.operation_id op,
          n,
        );
        dispatches = a.dispatches;
        operation_attempts = a.operation_attempts;
        outcomes = a.outcomes;
      },
    )

-- The loop over dispatches returned `k`.
pub record DispatchesAdded (ds : List DispatchRecord) (j k : DurableJournal) : Type 0 where
  pub intents : k.intents ≡ j.intents
  pub dispatches :
      (a : AttemptId)
      → get a k.dispatches ≡ or_else (find_by dispatch_attempt a ds) (get a j.dispatches)
  pub operation_attempts :
      (op : OperationId)
      → attempts k op
        ≡ attempts j op ++ map dispatch_attempt (filter (λ d. d.operation_id == op) ds)
  pub outcomes : k.outcomes ≡ j.outcomes

attempts_step :
    (j : DurableJournal) (x : DispatchRecord) (op : OperationId) (ds : List DispatchRecord)
    → attempts
          (record j {
            operation_attempts =
                insert x.operation_id
                  (attempts j x.operation_id ++ x.attempt_id ∷ [])
                  j.operation_attempts;
            dispatches = insert x.attempt_id x j.dispatches;
          })
          op
        ++ map dispatch_attempt (filter (λ d. d.operation_id == op) ds)
      ≡ attempts j op ++ map dispatch_attempt (filter (λ d. d.operation_id == op) (x ∷ ds))
unfolding filter
attempts_step j x op ds =
    let rest = map dispatch_attempt (filter (λ d. d.operation_id == op) ds) in
    elim (Bool-cases (x.operation_id == op)) [
      | inl e ↦ ground (
        arith,
        attempts-dispatch j x op,
        (==_iff x.operation_id op).0 e,
        append_assoc (attempts j op) (x.attempt_id ∷ []) rest,
      )
      | inr e ↦ ground (arith, attempts-dispatch j x op)
    ]

pub add_dispatches :
    (ds : List DispatchRecord) (j : DurableJournal)
    → HasDistinct dispatch_attempt ds
    → All (λ d. is_some (get d.operation_id j.intents) ≡ true) ds
    → ((a : AttemptId) → is_some (get a j.dispatches) ≡ true → find_by dispatch_attempt a ds ≡ none)
    → (k : DurableJournal) × (persist_all persist_dispatch j ds ≡ ok k) × DispatchesAdded ds j k
unfolding persist_all persist_dispatch find_by filter
add_dispatches [] j d h f = (
  j,
  refl,
  record {
    intents = refl;
    dispatches = λ a. refl;
    operation_attempts = λ op. sym (append-nil (attempts j op));
    outcomes = refl;
  },
)
add_dispatches (x ∷ xs) j (n, d) (p, h) f =
    let q : get x.attempt_id j.dispatches ≡ none =
      ground (arith, f x.attempt_id, ==_refl x.attempt_id) in
    let next : DurableJournal = record j {
      operation_attempts =
          insert x.operation_id (attempts j x.operation_id ++ x.attempt_id ∷ [])
            j.operation_attempts;
      dispatches = insert x.attempt_id x j.dispatches;
    } in
    let (k, e, a) = add_dispatches xs next d h (λ b c.
      ground (arith, get-insert b x.attempt_id x j.dispatches, ==_iff x.attempt_id b, n, f b, c)) in
    (
      k,
      rw (p, q, persist_all, persist_dispatch) e,
      record {
        intents = a.intents;
        dispatches = λ b. ground (
          arith,
          a.dispatches b,
          get-insert b x.attempt_id x j.dispatches,
          ==_iff x.attempt_id b,
          n,
        );
        operation_attempts = λ op. a.operation_attempts op ∙ attempts_step j x op xs;
        outcomes = a.outcomes;
      },
    )

-- The loop over outcomes returned `k`.
pub record OutcomesAdded (os : List OutcomeRecord) (j k : DurableJournal) : Type 0 where
  pub intents : k.intents ≡ j.intents
  pub dispatches : k.dispatches ≡ j.dispatches
  pub operation_attempts : k.operation_attempts ≡ j.operation_attempts
  pub outcomes :
      (a : AttemptId) → get a k.outcomes ≡ or_else (find_by outcome_attempt a os) (get a j.outcomes)

-- What `persist_outcome` asks for.
pub record MaySettle (j : DurableJournal) (o : OutcomeRecord) : Type 0 where
  pub intended : is_some (get o.operation_id j.intents) ≡ true
  pub dispatch : DispatchRecord
  pub dispatched : get o.attempt_id j.dispatches ≡ some dispatch
  pub operation : (dispatch.operation_id == o.operation_id) ≡ true

pub add_outcomes :
    (os : List OutcomeRecord) (j : DurableJournal)
    → HasDistinct outcome_attempt os
    → All (MaySettle j) os
    → ((a : AttemptId) → is_some (get a j.outcomes) ≡ true → find_by outcome_attempt a os ≡ none)
    → (k : DurableJournal) × (persist_all persist_outcome j os ≡ ok k) × OutcomesAdded os j k
unfolding persist_all persist_outcome settle_outcome find_by
add_outcomes [] j d h f = (
  j,
  refl,
  record { intents = refl; dispatches = refl; operation_attempts = refl; outcomes = λ a. refl },
)
add_outcomes (x ∷ xs) j (n, d) (p, h) f =
    let q : get x.attempt_id j.outcomes ≡ none =
      ground (arith, f x.attempt_id, ==_refl x.attempt_id) in
    let next : DurableJournal = record j { outcomes = insert x.attempt_id x j.outcomes } in
    let (k, e, a) =
      add_outcomes xs next d
        (All-map (MaySettle j) (MaySettle next) xs
          (λ o m. record {
            intended = m.intended;
            dispatch = m.dispatch;
            dispatched = m.dispatched;
            operation = m.operation;
          })
          h)
        (λ b c.
          ground
            (arith, get-insert b x.attempt_id x j.outcomes, ==_iff x.attempt_id b, n, f b, c)) in
    (
      k,
      rw (p.intended, p.dispatched, persist_all, persist_outcome)
          (rw (p.operation) (rw (q, settle_outcome) e)),
      record {
        intents = a.intents;
        dispatches = a.dispatches;
        operation_attempts = a.operation_attempts;
        outcomes = λ b.
            ground (
              arith,
              a.outcomes b,
              get-insert b x.attempt_id x j.outcomes,
              ==_iff x.attempt_id b,
              n,
            );
      },
    )
