-- ===== src/Recovery/Durable/Lineage/Kept.antt =====
-- Every accepted mutation and every commit keeps the lineage of a run.
use graph_core.Base.{
  ◌≡◌, sym, ◌∙◌, subst, inl, inr, true, List, [], ◌∷◌, ◌++◌, none, is_some, All-append, arith,
}
use graph_core.Base.Order.{==_iff}
use graph_core.Base.BTreeMap.{BTreeMap, get, insert, get-insert, values}
use graph_core.Base.Lookup.{
  find_by, find_by-concat, HasDistinct-concat, find_by-values-insert, HasDistinct-values-insert,
}
use graph_core.Core.Ident.{Ident, ident_ord}
use graph_core.Recovery.Model.{
  AttemptId, operation_ord, attempt_ord, EffectIntent, DispatchRecord, OutcomeRecord,
}
use graph_core.Recovery.Durable.Facts.{
  StoreRevision, AttemptAdmission, CancellationRecord, IdempotencyKey, key_ord, DurableMutation,
  admit_attempt, record_intent, record_cancellation, record_dispatch, record_outcome,
}
use graph_core.Recovery.Durable.State.{DurableRunState}
use graph_core.Recovery.Durable.Accepted.{Accepted}
use graph_core.Recovery.Durable.Runs.{IsKept}
use graph_core.Recovery.Durable.Lineage.{
  operation_of, task_of, dispatch_attempt, outcome_attempt, IntentLineage, HasIntent, HasDispatch,
  Lineage, All-map,
}

module _ (s : DurableRunState) (i : EffectIntent) (l : Lineage s)
    (new_operation : get i.operation_id s.intents ≡ none)
    (new_task : get i.task_id s.task_operations ≡ none) where
  abbrev with_intent : DurableRunState
  with_intent = record s {
    task_operations = insert i.task_id i.operation_id s.task_operations;
    intents = insert i.operation_id i s.intents;
  }

  free_operation : find_by operation_of i.operation_id (values s.intents) ≡ none
  free_operation = sym (l.intents.found i.operation_id) ∙ new_operation

  free_task : find_by task_of i.task_id (values s.intents) ≡ none
  free_task = ground (arith, l.intents.owned i.task_id, new_task)

  after_intent-IntentLineage : IntentLineage with_intent
  after_intent-IntentLineage = record {
    found = λ op. ground (
      arith,
      get-insert op i.operation_id i s.intents,
      find_by-values-insert operation_of i.operation_id i s.intents new_operation free_operation op,
      l.intents.found op,
    );
    owned = λ task. ground (
      arith,
      get-insert task i.task_id i.operation_id s.task_operations,
      find_by-values-insert task_of i.operation_id i s.intents new_operation free_task task,
      l.intents.owned task,
    );
    operations =
        HasDistinct-values-insert operation_of i.operation_id i s.intents new_operation
          free_operation l.intents.operations;
    tasks =
        HasDistinct-values-insert task_of i.operation_id i s.intents new_operation free_task
          l.intents.tasks;
  }

  after_intent-Lineage : Lineage with_intent
  after_intent-Lineage = record {
    intents = after_intent-IntentLineage;
    dispatches = record {
      found = l.dispatches.found;
      attempts = l.dispatches.attempts;
      intended =
          All-map (HasIntent s) (HasIntent with_intent) s.dispatch_history
            (λ d h. ground (arith, get-insert d.operation_id i.operation_id i s.intents, h))
            l.dispatches.intended;
    };
    outcomes = record {
      found = l.outcomes.found;
      attempts = l.outcomes.attempts;
      dispatched =
          All-map (HasDispatch s) (HasDispatch with_intent) s.outcome_history
            (λ o h. record {
              dispatch = h.dispatch;
              dispatched = h.dispatched;
              operation = h.operation;
            })
            l.outcomes.dispatched;
    };
  }

module _ (s : DurableRunState) (d : DispatchRecord) (l : Lineage s)
    (intended : is_some (get d.operation_id s.intents) ≡ true)
    (new_attempt : get d.attempt_id s.dispatches ≡ none) where
  abbrev with_dispatch : DurableRunState
  with_dispatch = record s {
    dispatches = insert d.attempt_id d s.dispatches;
    dispatch_history = s.dispatch_history ++ d ∷ [];
  }

  after_dispatch-Lineage : Lineage with_dispatch
  after_dispatch-Lineage = record {
    intents = record {
      found = l.intents.found;
      owned = l.intents.owned;
      operations = l.intents.operations;
      tasks = l.intents.tasks;
    };
    dispatches = record {
      found = λ a. ground (
        arith,
        get-insert a d.attempt_id d s.dispatches,
        find_by-concat dispatch_attempt a s.dispatch_history d,
        l.dispatches.found a,
        ==_iff d.attempt_id a,
        new_attempt,
      );
      attempts =
          HasDistinct-concat dispatch_attempt s.dispatch_history d l.dispatches.attempts
            (sym (l.dispatches.found d.attempt_id) ∙ new_attempt);
      intended =
          All-append (HasIntent s) s.dispatch_history (d ∷ []) l.dispatches.intended (intended, tt);
    };
    outcomes = record {
      found = l.outcomes.found;
      attempts = l.outcomes.attempts;
      dispatched =
          All-map (HasDispatch s) (HasDispatch with_dispatch) s.outcome_history
            (λ o h. record {
              dispatch = h.dispatch;
              dispatched = ground (
                arith,
                get-insert o.attempt_id d.attempt_id d s.dispatches,
                ==_iff d.attempt_id o.attempt_id,
                h.dispatched,
                new_attempt,
              );
              operation = h.operation;
            })
            l.outcomes.dispatched;
    };
  }

module _ (s : DurableRunState) (o : OutcomeRecord) (l : Lineage s) (h : HasDispatch s o)
    (new_outcome : get o.attempt_id s.outcomes ≡ none) where
  abbrev with_outcome : DurableRunState
  with_outcome = record s {
    outcomes = insert o.attempt_id o s.outcomes;
    outcome_history = s.outcome_history ++ o ∷ [];
  }

  unaffected : (x : OutcomeRecord) → HasDispatch s x → HasDispatch with_outcome x
  unaffected x k = record {
    dispatch = k.dispatch;
    dispatched = k.dispatched;
    operation = k.operation;
  }

  after_outcome-Lineage : Lineage with_outcome
  after_outcome-Lineage = record {
    intents = record {
      found = l.intents.found;
      owned = l.intents.owned;
      operations = l.intents.operations;
      tasks = l.intents.tasks;
    };
    dispatches = record {
      found = l.dispatches.found;
      attempts = l.dispatches.attempts;
      intended = l.dispatches.intended;
    };
    outcomes = record {
      found = λ a. ground (
        arith,
        get-insert a o.attempt_id o s.outcomes,
        find_by-concat outcome_attempt a s.outcome_history o,
        l.outcomes.found a,
        ==_iff o.attempt_id a,
        new_outcome,
      );
      attempts =
          HasDistinct-concat outcome_attempt s.outcome_history o l.outcomes.attempts
            (sym (l.outcomes.found o.attempt_id) ∙ new_outcome);
      dispatched =
          All-append (HasDispatch with_outcome) s.outcome_history (o ∷ [])
            (All-map (HasDispatch s) (HasDispatch with_outcome) s.outcome_history unaffected
              l.outcomes.dispatched)
            (unaffected o h, tt);
    };
  }

-- The lineage does not look at the other fields.
elsewhere :
    (s : DurableRunState) (revision : StoreRevision)
    (admissions : BTreeMap AttemptId AttemptAdmission) (admission_history : List AttemptAdmission)
    (cancellations : BTreeMap Ident CancellationRecord)
    (idempotency : BTreeMap IdempotencyKey (List DurableMutation × StoreRevision))
    → Lineage s
    → Lineage (record s {
      revision = revision;
      admissions = admissions;
      admission_history = admission_history;
      cancellations = cancellations;
      idempotency = idempotency;
    })
elsewhere s revision admissions admission_history cancellations idempotency l = record {
  intents = record {
    found = l.intents.found;
    owned = l.intents.owned;
    operations = l.intents.operations;
    tasks = l.intents.tasks;
  };
  dispatches = record {
    found = l.dispatches.found;
    attempts = l.dispatches.attempts;
    intended = l.dispatches.intended;
  };
  outcomes = record {
    found = l.outcomes.found;
    attempts = l.outcomes.attempts;
    dispatched =
        All-map (HasDispatch s)
          (HasDispatch (record s {
            revision = revision;
            admissions = admissions;
            admission_history = admission_history;
            cancellations = cancellations;
            idempotency = idempotency;
          }))
          s.outcome_history
          (λ o h. record {
            dispatch = h.dispatch;
            dispatched = h.dispatched;
            operation = h.operation;
          })
          l.outcomes.dispatched;
  };
}

by_mutation :
    (s : DurableRunState) (m : DurableMutation) (s' : DurableRunState)
    → Accepted s m s'
    → Lineage s
    → Lineage s'
by_mutation s (admit_attempt a) s' (_, _, e) l = subst Lineage (sym e) (
    elsewhere s s.revision (insert a.attempt_id a s.admissions) (s.admission_history ++ a ∷ [])
      s.cancellations s.idempotency l)
by_mutation s (record_intent i) s' (inl (_, e)) l = subst Lineage (sym e) l
by_mutation s (record_intent i) s' (inr (p, q, e)) l =
    subst Lineage (sym e) (after_intent-Lineage s i l p q)
by_mutation s (record_cancellation c) s' (inl (_, e)) l = subst Lineage (sym e) l
by_mutation s (record_cancellation c) s' (inr (_, _, _, e)) l = subst Lineage (sym e) (
    elsewhere s s.revision s.admissions s.admission_history (insert c.task_id c s.cancellations)
      s.idempotency l)
by_mutation s (record_dispatch d) s' k l =
    subst Lineage (sym k.changed)
      (after_dispatch-Lineage s d l (ground (arith, k.intended)) k.new_attempt)
by_mutation s (record_outcome o) s' k l = elim k.changed [
  | inl (_, _, _, e) ↦ subst Lineage (sym e) l
  | inr (p, e) ↦ subst Lineage (sym e) (
      after_outcome-Lineage s o l
        (record { dispatch = k.dispatch; dispatched = k.dispatched; operation = k.operation }) p)
]

pub Lineage-IsKept : IsKept Lineage
Lineage-IsKept = record {
  by_mutation = by_mutation;
  by_seal = λ s request revision l.
      elsewhere s revision s.admissions s.admission_history s.cancellations
        (insert request.idempotency_key (request.mutations, revision) s.idempotency) l;
}
