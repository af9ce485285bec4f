-- ===== src/Recovery/Durable/Accepted.antt =====
-- What each accepted mutation found in the run state and what it changed.
use graph_core.Base.{
  ◌≡◌, refl, ◌⊎◌, inl, inr, true, [], ◌∷◌, ◌++◌, Option, none, some, if_pos, if_neg, arith,
  Bool-cases, Option-cases,
}
use graph_core.Base.Results.{ok, err, panic, out_of_fuel, ◌>>◌}
use graph_core.Base.Order.{◌==◌, ==_iff}
use graph_core.Base.BTreeMap.{get, insert}
use graph_core.Core.Ident.{ident_ord}
use graph_core.Recovery.Model.{
  OperationId, operation_ord, attempt_ord, EffectIntent, DispatchRecord, OutcomeRecord,
  KnownEffectOutcome-discrete,
}
use graph_core.Recovery.Durable.Facts.{
  run_ord, AttemptAdmission, CancellationRecord, CancellationRecord-discrete, EffectIntent-discrete,
  StoreError, invariant_violation, DurableMutation, admit_attempt, record_intent,
  record_cancellation, record_dispatch, record_outcome,
}
use graph_core.Recovery.Durable.State.{DurableRunState}
use graph_core.Recovery.Durable.Mutation.{
  Update, same_operation, owns_task, admits_attempt, check_dispatch, settle_outcome,
  apply_admission, apply_intent, apply_cancellation, apply_dispatch, apply_outcome, apply_mutation,
}

abbrev pub AdmissionAccepted : DurableRunState → AttemptAdmission → DurableRunState → Type 0
AdmissionAccepted s a s' =
    (a.run_id ≡ s.run_id)
    × (get a.attempt_id s.admissions ≡ none)
    × (s' ≡ record s {
      admissions = insert a.attempt_id a s.admissions;
      admission_history = s.admission_history ++ a ∷ [];
    })

abbrev pub IntentAccepted : DurableRunState → EffectIntent → DurableRunState → Type 0
IntentAccepted s i s' =
    ((get i.operation_id s.intents ≡ some i) × (s' ≡ s))
    ⊎ ((get i.operation_id s.intents ≡ none)
        × (get i.task_id s.task_operations ≡ none)
        × (s' ≡ record s {
          task_operations = insert i.task_id i.operation_id s.task_operations;
          intents = insert i.operation_id i s.intents;
        }))

abbrev pub CancellationAccepted : DurableRunState → CancellationRecord → DurableRunState → Type 0
CancellationAccepted s c s' =
    ((get c.task_id s.cancellations ≡ some c) × (s' ≡ s))
    ⊎ ((get c.task_id s.cancellations ≡ none)
        × (owns_task s c ≡ true)
        × (admits_attempt s c ≡ true)
        × (s' ≡ record s { cancellations = insert c.task_id c s.cancellations }))

pub record DispatchAccepted (s : DurableRunState) (d : DispatchRecord) (s' : DurableRunState)
    : Type 0 where
  pub intent : EffectIntent
  pub admission : AttemptAdmission
  pub intended : get d.operation_id s.intents ≡ some intent
  pub admitted : get d.attempt_id s.admissions ≡ some admission
  pub operation : admission.operation_id ≡ some d.operation_id
  pub task : intent.task_id ≡ admission.task_id
  pub not_cancelled : get admission.task_id s.cancellations ≡ none
  pub new_attempt : get d.attempt_id s.dispatches ≡ none
  pub changed : s' ≡ record s {
    dispatches = insert d.attempt_id d s.dispatches;
    dispatch_history = s.dispatch_history ++ d ∷ [];
  }

pub record OutcomeAccepted (s : DurableRunState) (o : OutcomeRecord) (s' : DurableRunState)
    : Type 0 where
  pub dispatch : DispatchRecord
  pub dispatched : get o.attempt_id s.dispatches ≡ some dispatch
  pub operation : dispatch.operation_id ≡ o.operation_id
  pub changed :
      ((e : OutcomeRecord) × (get o.attempt_id s.outcomes ≡ some e)
        × (e.outcome ≡ o.outcome)
        × (s' ≡ s))
      ⊎ ((get o.attempt_id s.outcomes ≡ none)
          × (s' ≡ record s {
            outcomes = insert o.attempt_id o s.outcomes;
            outcome_history = s.outcome_history ++ o ∷ [];
          }))

abbrev pub Accepted : DurableRunState → DurableMutation → DurableRunState → Type 0
Accepted s (admit_attempt a) s' = AdmissionAccepted s a s'
Accepted s (record_intent i) s' = IntentAccepted s i s'
Accepted s (record_cancellation c) s' = CancellationAccepted s c s'
Accepted s (record_dispatch d) s' = DispatchAccepted s d s'
Accepted s (record_outcome o) s' = OutcomeAccepted s o s'

abbrev pub IsViolation : StoreError → Type 0
IsViolation (invariant_violation i) = Unit
IsViolation _ = ⊥

-- An update that returns a state with the property, or a violation of an invariant.
abbrev pub Yields : (DurableRunState → Type 0) → Update → Type 0
Yields P (ok s) = P s
Yields P (err e) = IsViolation e
Yields P panic = ⊥
Yields P out_of_fuel = ⊥

same_operation_eq : (x y : Option OperationId) → same_operation x y ≡ true → x ≡ y
unfolding same_operation
same_operation_eq none none h = refl
same_operation_eq (some a) (some b) h = ground (arith, ==_iff a b)
same_operation_eq none (some b) h = cc
same_operation_eq (some a) none h = cc

admission-Yields :
    (s : DurableRunState) (a : AttemptAdmission)
    → Yields (AdmissionAccepted s a) (apply_admission s a)
unfolding apply_admission
admission-Yields s a = elim (Bool-cases (a.run_id == s.run_id)) [
  | inr e ↦ rw (e, apply_admission) tt
  | inl e ↦ elim (Option-cases (get a.attempt_id s.admissions)) [
    | inr (b, k) ↦ rw (e, apply_admission) (rw k tt)
    | inl k ↦ rw (e, apply_admission) (rw k ((==_iff a.run_id s.run_id).0 e, k, refl))
  ]
]

intent-Yields :
    (s : DurableRunState) (i : EffectIntent) → Yields (IntentAccepted s i) (apply_intent s i)
unfolding apply_intent
intent-Yields s i = elim (Option-cases (get i.operation_id s.intents)) [
  | inr (existing, e) ↦ elim (EffectIntent-discrete existing i) [
    | yes p ↦ rw (e, apply_intent) (rw (if_pos _ p) (inl (ground arith, refl)))
    | no p ↦ rw (e, apply_intent) (rw (if_neg _ p) tt)
  ]
  | inl e ↦ elim (Option-cases (get i.task_id s.task_operations)) [
    | inr (op, k) ↦ rw (e, k, apply_intent) tt
    | inl k ↦ rw (e, k, apply_intent) (inr (e, k, refl))
  ]
]

cancellation-Yields :
    (s : DurableRunState) (c : CancellationRecord)
    → Yields (CancellationAccepted s c) (apply_cancellation s c)
unfolding apply_cancellation
cancellation-Yields s c = elim (Bool-cases (c.run_id == s.run_id)) [
  | inr e ↦ rw (e, apply_cancellation) tt
  | inl e ↦ elim (Option-cases (get c.task_id s.cancellations)) [
    | inr (existing, k) ↦ elim (CancellationRecord-discrete existing c) [
      | yes p ↦ rw (e, apply_cancellation) (rw k (rw (if_pos _ p) (inl (ground arith, refl))))
      | no p ↦ rw (e, apply_cancellation) (rw k (rw (if_neg _ p) tt))
    ]
    | inl k ↦ elim (Bool-cases (owns_task s c)) [
      | inr o ↦ rw (e, apply_cancellation) (rw k (rw o tt))
      | inl o ↦ elim (Bool-cases (admits_attempt s c)) [
        | inr a ↦ rw (e, apply_cancellation) (rw k (rw o (rw a tt)))
        | inl a ↦ rw (e, apply_cancellation) (rw k (rw o (rw a (inr (k, o, a, refl)))))
      ]
    ]
  ]
]

module _ (s : DurableRunState) (d : DispatchRecord) (i : EffectIntent) (a : AttemptAdmission)
    (intended : get d.operation_id s.intents ≡ some i)
    (admitted : get d.attempt_id s.admissions ≡ some a) where
  abbrev dispatched : DurableRunState
  dispatched = record s {
    dispatches = insert d.attempt_id d s.dispatches;
    dispatch_history = s.dispatch_history ++ d ∷ [];
  }

  checked-Yields : Yields (DispatchAccepted s d) (check_dispatch s d i a >> ok dispatched)
  unfolding check_dispatch
  checked-Yields = elim (Bool-cases (same_operation a.operation_id (some d.operation_id))) [
    | inr o ↦ rw (o, check_dispatch) tt
    | inl o ↦ elim (Bool-cases (i.task_id == a.task_id)) [
      | inr t ↦ rw (o, check_dispatch) (rw t tt)
      | inl t ↦ elim (Option-cases (get d.attempt_id s.dispatches)) [
        | inr (x, n) ↦ elim (Option-cases (get a.task_id s.cancellations)) [
          | inr (y, c) ↦ rw (o, check_dispatch) (rw t (rw c (rw n tt)))
          | inl c ↦ rw (o, check_dispatch) (rw t (rw c (rw n tt)))
        ]
        | inl n ↦ elim (Option-cases (get a.task_id s.cancellations)) [
          | inr (y, c) ↦ rw (o, check_dispatch) (rw t (rw c (rw n tt)))
          | inl c ↦
              rw (o, check_dispatch)
                (rw t (
                  rw c (
                    rw n (record {
                      intent = i;
                      admission = a;
                      intended = intended;
                      admitted = admitted;
                      operation = same_operation_eq a.operation_id (some d.operation_id) o;
                      task = (==_iff i.task_id a.task_id).0 t;
                      not_cancelled = c;
                      new_attempt = n;
                      changed = refl;
                    }))))
        ]
      ]
    ]
  ]

dispatch-Yields :
    (s : DurableRunState) (d : DispatchRecord) → Yields (DispatchAccepted s d) (apply_dispatch s d)
unfolding apply_dispatch
dispatch-Yields s d = elim (Option-cases (get d.operation_id s.intents)) [
  | inl e ↦ rw (e, apply_dispatch) tt
  | inr (i, e) ↦ elim (Option-cases (get d.attempt_id s.admissions)) [
    | inl k ↦ rw (e, k, apply_dispatch) tt
    | inr (a, k) ↦ rw (e, k, apply_dispatch) (checked-Yields s d i a e k)
  ]
]

settled-Yields :
    (s : DurableRunState) (o : OutcomeRecord) (d : DispatchRecord)
    → get o.attempt_id s.dispatches ≡ some d
    → d.operation_id ≡ o.operation_id
    → Yields (OutcomeAccepted s o) (settle_outcome s o)
unfolding settle_outcome
settled-Yields s o d e same = elim (Option-cases (get o.attempt_id s.outcomes)) [
  | inr (x, k) ↦ elim (KnownEffectOutcome-discrete x.outcome o.outcome) [
    | yes p ↦
        rw (k, settle_outcome)
          (rw (if_pos _ p) (record {
            dispatch = d;
            dispatched = e;
            operation = same;
            changed = inl (x, k, p, refl);
          }))
    | no p ↦ rw (k, settle_outcome) (rw (if_neg _ p) tt)
  ]
  | inl k ↦
      rw (k, settle_outcome)
        (record { dispatch = d; dispatched = e; operation = same; changed = inr (k, refl) })
]

outcome-Yields :
    (s : DurableRunState) (o : OutcomeRecord) → Yields (OutcomeAccepted s o) (apply_outcome s o)
unfolding apply_outcome
outcome-Yields s o = elim (Option-cases (get o.attempt_id s.admissions)) [
  | inl e ↦ rw (e, apply_outcome) tt
  | inr (a, e) ↦ elim (Option-cases (get o.attempt_id s.dispatches)) [
    | inl k ↦ rw (e, k, apply_outcome) tt
    | inr (d, k) ↦ elim (Bool-cases (d.operation_id == o.operation_id)) [
      | inr p ↦ rw (e, k, apply_outcome) (rw p tt)
      | inl p ↦ elim (Bool-cases (same_operation a.operation_id (some o.operation_id))) [
        | inr q ↦ rw (e, k, apply_outcome) (rw p (rw q tt))
        | inl q ↦
            rw (e, k, apply_outcome)
              (rw p (rw q (settled-Yields s o d k ((==_iff d.operation_id o.operation_id).0 p))))
      ]
    ]
  ]
]

pub apply_mutation-Yields :
    (s : DurableRunState) (m : DurableMutation) → Yields (Accepted s m) (apply_mutation s m)
unfolding apply_mutation
apply_mutation-Yields s (admit_attempt a) = admission-Yields s a
apply_mutation-Yields s (record_intent i) = intent-Yields s i
apply_mutation-Yields s (record_cancellation c) = cancellation-Yields s c
apply_mutation-Yields s (record_dispatch d) = dispatch-Yields s d
apply_mutation-Yields s (record_outcome o) = outcome-Yields s o
