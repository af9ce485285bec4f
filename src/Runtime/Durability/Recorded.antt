-- ===== src/Runtime/Durability/Recorded.antt =====
-- What a run's state holds of a mutation that was accepted, and that later mutations keep it.
use graph_core.Base.{◌≡◌, refl, inl, inr, none, some, arith}
use graph_core.Base.Order.{Ord, ==_iff, ==_refl}
use graph_core.Base.BTreeMap.{BTreeMap, get, insert, get-insert}
use graph_core.Core.Ident.{Ident, ident_ord}
use graph_core.Recovery.Model.{
  OperationId, AttemptId, operation_ord, attempt_ord, EffectIntent, DispatchRecord, OutcomeRecord,
}
use graph_core.Recovery.Durable.Facts.{
  AttemptAdmission, CancellationRecord, DurableMutation, admit_attempt, record_intent,
  record_cancellation, record_dispatch, record_outcome,
}
use graph_core.Recovery.Durable.State.{DurableRunState}
use graph_core.Recovery.Durable.Accepted.{Accepted}

abbrev pub Recorded : DurableRunState → DurableMutation → Type 0
Recorded s (admit_attempt a) = get a.attempt_id s.admissions ≡ some a
Recorded s (record_intent i) = get i.operation_id s.intents ≡ some i
Recorded s (record_cancellation c) = get c.task_id s.cancellations ≡ some c
Recorded s (record_dispatch d) = get d.attempt_id s.dispatches ≡ some d
Recorded s (record_outcome o) =
    (e : OutcomeRecord) × (get o.attempt_id s.outcomes ≡ some e) × (e.outcome ≡ o.outcome)

-- No fact is lost or changed.
pub record Keeps (s s' : DurableRunState) : Type 0 where
  pub admissions :
      (a : AttemptId) (x : AttemptAdmission)
      → get a s.admissions ≡ some x
      → get a s'.admissions ≡ some x
  pub intents :
      (op : OperationId) (i : EffectIntent) → get op s.intents ≡ some i → get op s'.intents ≡ some i
  pub cancellations :
      (t : Ident) (c : CancellationRecord)
      → get t s.cancellations ≡ some c
      → get t s'.cancellations ≡ some c
  pub dispatches :
      (a : AttemptId) (d : DispatchRecord)
      → get a s.dispatches ≡ some d
      → get a s'.dispatches ≡ some d
  pub outcomes :
      (a : AttemptId) (o : OutcomeRecord) → get a s.outcomes ≡ some o → get a s'.outcomes ≡ some o

pub Keeps-refl : (s : DurableRunState) → Keeps s s
Keeps-refl s = record {
  admissions = λ _ _ h. h;
  intents = λ _ _ h. h;
  cancellations = λ _ _ h. h;
  dispatches = λ _ _ h. h;
  outcomes = λ _ _ h. h;
}

pub Recorded-Keeps :
    (s s' : DurableRunState) (m : DurableMutation) → Keeps s s' → Recorded s m → Recorded s' m
Recorded-Keeps s s' (admit_attempt a) k h = k.admissions a.attempt_id a h
Recorded-Keeps s s' (record_intent i) k h = k.intents i.operation_id i h
Recorded-Keeps s s' (record_cancellation c) k h = k.cancellations c.task_id c h
Recorded-Keeps s s' (record_dispatch d) k h = k.dispatches d.attempt_id d h
Recorded-Keeps s s' (record_outcome o) k (e, h, p) = (e, k.outcomes o.attempt_id e h, p)

get-insert_kept :
    {K V : Type 0} ⦃o : Ord K⦄ (m : BTreeMap K V) (k j : K) (w v : V)
    → get k m ≡ none
    → get j m ≡ some v
    → get j (insert k w m) ≡ some v
get-insert_kept m k j w v fresh h = ground (arith, get-insert j k w m, ==_iff k j)

get-insert_self :
    {K V : Type 0} ⦃o : Ord K⦄ (m : BTreeMap K V) (k : K) (w : V) → get k (insert k w m) ≡ some w
get-insert_self m k w = ground (arith, get-insert k k w m, ==_refl k)

pub Accepted-Keeps :
    (s : DurableRunState) (m : DurableMutation) (s' : DurableRunState)
    → Accepted s m s'
    → Keeps s s'
Accepted-Keeps s (admit_attempt a) s' (_, fresh, e) = rw e (record {
  admissions = λ j v h. get-insert_kept s.admissions a.attempt_id j a v fresh h;
  intents = λ _ _ h. h;
  cancellations = λ _ _ h. h;
  dispatches = λ _ _ h. h;
  outcomes = λ _ _ h. h;
})
Accepted-Keeps s (record_intent i) s' (inl (_, e)) = rw e (Keeps-refl s)
Accepted-Keeps s (record_intent i) s' (inr (fresh, _, e)) = rw e (record {
  admissions = λ _ _ h. h;
  intents = λ j v h. get-insert_kept s.intents i.operation_id j i v fresh h;
  cancellations = λ _ _ h. h;
  dispatches = λ _ _ h. h;
  outcomes = λ _ _ h. h;
})
Accepted-Keeps s (record_cancellation c) s' (inl (_, e)) = rw e (Keeps-refl s)
Accepted-Keeps s (record_cancellation c) s' (inr (fresh, _, _, e)) = rw e (record {
  admissions = λ _ _ h. h;
  intents = λ _ _ h. h;
  cancellations = λ j v h. get-insert_kept s.cancellations c.task_id j c v fresh h;
  dispatches = λ _ _ h. h;
  outcomes = λ _ _ h. h;
})
Accepted-Keeps s (record_dispatch d) s' k = rw (k.changed) (record {
  admissions = λ _ _ h. h;
  intents = λ _ _ h. h;
  cancellations = λ _ _ h. h;
  dispatches = λ j v h. get-insert_kept s.dispatches d.attempt_id j d v k.new_attempt h;
  outcomes = λ _ _ h. h;
})
Accepted-Keeps s (record_outcome o) s' k = elim k.changed [
  | inl (_, _, _, e) ↦ rw e (Keeps-refl s)
  | inr (fresh, e) ↦ rw e (record {
    admissions = λ _ _ h. h;
    intents = λ _ _ h. h;
    cancellations = λ _ _ h. h;
    dispatches = λ _ _ h. h;
    outcomes = λ j v h. get-insert_kept s.outcomes o.attempt_id j o v fresh h;
  })
]

pub Accepted-Recorded :
    (s : DurableRunState) (m : DurableMutation) (s' : DurableRunState)
    → Accepted s m s'
    → Recorded s' m
Accepted-Recorded s (admit_attempt a) s' (_, _, e) =
    rw e (get-insert_self s.admissions a.attempt_id a)
Accepted-Recorded s (record_intent i) s' (inl (h, e)) = rw e h
Accepted-Recorded s (record_intent i) s' (inr (_, _, e)) =
    rw e (get-insert_self s.intents i.operation_id i)
Accepted-Recorded s (record_cancellation c) s' (inl (h, e)) = rw e h
Accepted-Recorded s (record_cancellation c) s' (inr (_, _, _, e)) =
    rw e (get-insert_self s.cancellations c.task_id c)
Accepted-Recorded s (record_dispatch d) s' k =
    rw (k.changed) (get-insert_self s.dispatches d.attempt_id d)
Accepted-Recorded s (record_outcome o) s' k = elim k.changed [
  | inl (x, h, p, e) ↦ rw e (x, h, p)
  | inr (_, e) ↦ rw e (o, get-insert_self s.outcomes o.attempt_id o, refl)
]
