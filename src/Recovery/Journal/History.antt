-- ===== src/Recovery/Journal/History.antt =====
-- Journals that grow by accepted updates.
use graph_core.Base.{◌≡◌, inl, inr, some, arith, Option-cases}
use graph_core.Base.Results.{ok, err, panic, out_of_fuel}
use graph_core.Base.Order.{==_iff}
use graph_core.Base.BTreeMap.{get, get-insert}
use graph_core.Recovery.Model.{
  OperationId, AttemptId, operation_ord, attempt_ord, EffectIntent, DispatchRecord, OutcomeRecord,
}
use graph_core.Recovery.Journal.{
  DurableJournal, new, Update, persist_intent, persist_dispatch, persist_outcome, settle_outcome,
}
use graph_core.Recovery.Journal.Invariant.{
  IsValid, new-IsValid, Leaves, persist_intent-Leaves, persist_dispatch-Leaves,
  persist_outcome-Leaves,
}

-- The journals that accepted updates lead to.
pub data Grown (j : DurableJournal) : DurableJournal → Type 0 where
  unchanged : Grown j j
  with_intent :
      {k l : DurableJournal} (x : EffectIntent) → Grown j k → persist_intent k x ≡ ok l → Grown j l
  with_dispatch :
      {k l : DurableJournal} (x : DispatchRecord)
      → Grown j k
      → persist_dispatch k x ≡ ok l
      → Grown j l
  with_outcome :
      {k l : DurableJournal} (x : OutcomeRecord)
      → Grown j k
      → persist_outcome k x ≡ ok l
      → Grown j l

IsValid-of_Leaves : (r : Update) (l : DurableJournal) → r ≡ ok l → Leaves r → IsValid l
IsValid-of_Leaves (ok k) l e v = ground arith
IsValid-of_Leaves (err x) l e v = cc
IsValid-of_Leaves panic l e v = cc
IsValid-of_Leaves out_of_fuel l e v = cc

pub Grown-keeps-IsValid : {j k : DurableJournal} → IsValid j → Grown j k → IsValid k
Grown-keeps-IsValid v unchanged = v
Grown-keeps-IsValid v (with_intent {k} x g e) =
    IsValid-of_Leaves (persist_intent k x) _ e (persist_intent-Leaves k x (Grown-keeps-IsValid v g))
Grown-keeps-IsValid v (with_dispatch {k} x g e) =
    IsValid-of_Leaves (persist_dispatch k x) _ e
      (persist_dispatch-Leaves k x (Grown-keeps-IsValid v g))
Grown-keeps-IsValid v (with_outcome {k} x g e) =
    IsValid-of_Leaves (persist_outcome k x) _ e
      (persist_outcome-Leaves k x (Grown-keeps-IsValid v g))

-- In a journal that starts empty and grows by accepted updates, in any order, each intent owns its
-- task and each task's operation has an intent; the attempts of an operation are exactly its
-- dispatches; and each outcome is filed under an attempt of its operation.
pub journal-IsValid : {j : DurableJournal} → Grown new j → IsValid j
journal-IsValid g = Grown-keeps-IsValid new-IsValid g

-- Facts that a later journal still has.
pub record Keeps (j k : DurableJournal) : Type 0 where
  pub intents :
      (op : OperationId) (i : EffectIntent) → get op j.intents ≡ some i → get op k.intents ≡ some i
  pub dispatches :
      (a : AttemptId) (d : DispatchRecord)
      → get a j.dispatches ≡ some d
      → get a k.dispatches ≡ some d
  pub outcomes :
      (a : AttemptId) (o : OutcomeRecord) → get a j.outcomes ≡ some o → get a k.outcomes ≡ some o

intent-Keeps : (k l : DurableJournal) (x : EffectIntent) → persist_intent k x ≡ ok l → Keeps k l
unfolding persist_intent
intent-Keeps k l x e = elim (Option-cases (get x.operation_id k.intents)) [
  | inr (i, p) ↦ absurd (ground arith)
  | inl p ↦ record {
    intents = λ op i h.
        ground (arith, get-insert op x.operation_id x k.intents, ==_iff x.operation_id op);
    dispatches = λ a d h. ground arith;
    outcomes = λ a o h. ground arith;
  }
]

dispatch-Keeps :
    (k l : DurableJournal) (x : DispatchRecord) → persist_dispatch k x ≡ ok l → Keeps k l
unfolding persist_dispatch
dispatch-Keeps k l x e = record {
  intents = λ op i h. ground arith;
  dispatches =
      λ a d h. ground (arith, get-insert a x.attempt_id x k.dispatches, ==_iff x.attempt_id a);
  outcomes = λ a o h. ground arith;
}

outcome-Keeps : (k l : DurableJournal) (x : OutcomeRecord) → persist_outcome k x ≡ ok l → Keeps k l
unfolding persist_outcome settle_outcome
outcome-Keeps k l x e = record {
  intents = λ op i h. ground arith;
  dispatches = λ a d h. ground arith;
  outcomes = λ a o h. ground (arith, get-insert a x.attempt_id x k.outcomes, ==_iff x.attempt_id a);
}

Keeps-trans : {j k l : DurableJournal} → Keeps j k → Keeps k l → Keeps j l
Keeps-trans p q = record {
  intents = λ op i h. q.intents op i (p.intents op i h);
  dispatches = λ a d h. q.dispatches a d (p.dispatches a d h);
  outcomes = λ a o h. q.outcomes a o (p.outcomes a o h);
}

pub Grown-Keeps : {j k : DurableJournal} → Grown j k → Keeps j k
Grown-Keeps unchanged = record {
  intents = λ op i h. h;
  dispatches = λ a d h. h;
  outcomes = λ a o h. h;
}
Grown-Keeps (with_intent {k} {l} x g e) = Keeps-trans (Grown-Keeps g) (intent-Keeps k l x e)
Grown-Keeps (with_dispatch {k} {l} x g e) = Keeps-trans (Grown-Keeps g) (dispatch-Keeps k l x e)
Grown-Keeps (with_outcome {k} {l} x g e) = Keeps-trans (Grown-Keeps g) (outcome-Keeps k l x e)
