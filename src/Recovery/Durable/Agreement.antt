-- ===== src/Recovery/Durable/Agreement.antt =====
-- The journal rebuilt from a run's state knows of each effect what the run's state says.
use graph_core.Base.{
  ◌≡◌, refl, sym, ap, ◌∙◌, subst, inl, inr, true, List, [], ◌∷◌, map, last, Option, none, some,
  is_some, Memᴰ, mem-filter, arith,
}
use graph_core.Base.Results.{ok}
use graph_core.Base.Order.{◌==◌, ==_refl}
use graph_core.Base.BTreeMap.{get, values}
use graph_core.Base.Lookup.{find_by, All-find_by, find_by-mem}
use graph_core.Core.Ident.{ident_ord}
use graph_core.Recovery.Model.{
  OperationId, AttemptId, operation_ord, attempt_ord, DispatchRecord, OutcomeRecord,
}
use graph_core.Recovery.Journal.{
  DurableJournal, JournalError, attempts, persist_intent, persist_dispatch, persist_outcome,
  last_attempt, known_outcome, state,
}
use graph_core.Recovery.Journal
use graph_core.Recovery.Durable.Facts.{RunId, run_ord}
use graph_core.Recovery.Durable.State.{
  DurableRunState, intents, dispatches, latest_dispatch, outcome_for_attempt, latest_outcome,
  effect_state,
}
use graph_core.Recovery.Durable.State
use graph_core.Recovery.Durable.Store.{InMemoryDurableStore, persist_all, from_durable_state}
use graph_core.Recovery.Durable.Store
use graph_core.Recovery.Durable.Replays.{Later}
use graph_core.Recovery.Durable.Runs.{Later-Holds}
use graph_core.Recovery.Durable.Lineage.{
  dispatch_attempt, HasIntent, HasDispatch, Lineage, new-Lineage, All-map,
}
use graph_core.Recovery.Durable.Lineage.Kept.{Lineage-IsKept}
use graph_core.Recovery.Durable.Rebuild.{
  add_intents, add_dispatches, add_outcomes, MaySettle, IntentsAdded, DispatchesAdded,
}

pub record SameFacts (s : DurableRunState) (j : DurableJournal) : Type 0 where
  pub same_intents : (op : OperationId) → get op j.intents ≡ get op s.intents
  pub same_dispatches : (a : AttemptId) → get a j.dispatches ≡ get a s.dispatches
  pub same_attempts : (op : OperationId) → attempts j op ≡ map dispatch_attempt (dispatches s op)
  pub same_outcomes : (a : AttemptId) → get a j.outcomes ≡ get a s.outcomes

may_settle :
    (s : DurableRunState) (j k : DurableJournal) (l : Lineage s)
    → IntentsAdded (values s.intents) Journal.new j
    → DispatchesAdded s.dispatch_history j k
    → (o : OutcomeRecord) → HasDispatch s o
    → MaySettle k o
unfolding get
may_settle s j k l a b o h =
    let found : find_by dispatch_attempt o.attempt_id s.dispatch_history ≡ some h.dispatch =
      sym (l.dispatches.found o.attempt_id) ∙ h.dispatched in
    let intended : HasIntent s h.dispatch =
      All-find_by dispatch_attempt (HasIntent s) o.attempt_id s.dispatch_history h.dispatch
        l.dispatches.intended found in
    record {
      intended = ground (
        arith,
        intended,
        h.operation,
        b.intents,
        a.intents o.operation_id,
        l.intents.found o.operation_id,
      );
      dispatch = h.dispatch;
      dispatched = ground (arith, b.dispatches o.attempt_id, found);
      operation = ground (arith, h.operation, ==_refl o.operation_id);
    }

pub rebuilds :
    (s : DurableRunState)
    → Lineage s
    → (j : DurableJournal) × (from_durable_state s ≡ ok j) × SameFacts s j
unfolding from_durable_state intents dispatches get
rebuilds s l =
    let (j, e, a) =
      add_intents (values s.intents) Journal.new l.intents.operations l.intents.tasks (λ op h. cc)
        (λ t h. cc) in
    let (k, f, b) =
      add_dispatches s.dispatch_history j l.dispatches.attempts
        (All-map (HasIntent s) (λ d. is_some (get d.operation_id j.intents) ≡ true)
          s.dispatch_history
          (λ d h. ground (arith, a.intents d.operation_id, l.intents.found d.operation_id, h))
          l.dispatches.intended)
        (λ x h. ground (arith, a.dispatches, h)) in
    let (m, g, c) =
      add_outcomes s.outcome_history k l.outcomes.attempts
        (All-map (HasDispatch s) (MaySettle k) s.outcome_history (may_settle s j k l a b)
          l.outcomes.dispatched)
        (λ x h. ground (arith, a.outcomes, b.outcomes, h)) in
    (
      m,
      rw (e, from_durable_state) (rw f g),
      record {
        same_intents = λ op. ground (arith, c.intents, b.intents, a.intents op, l.intents.found op);
        same_dispatches =
            λ x. ground (arith, c.dispatches, b.dispatches x, a.dispatches, l.dispatches.found x);
        same_attempts = λ op.
            ground (arith, c.operation_attempts, b.operation_attempts op, a.operation_attempts);
        same_outcomes =
            λ x. ground (arith, c.outcomes x, b.outcomes, a.outcomes, l.outcomes.found x);
      },
    )

-- The journal answers as the run's state does.
pub record Agrees (s : DurableRunState) (j : DurableJournal) (op : OperationId) : Type 0 where
  pub intent : get op j.intents ≡ State.intent s op
  pub latest_dispatch : Journal.latest_dispatch j op ≡ State.latest_dispatch s op
  pub known_outcome : Journal.known_outcome j op ≡ State.latest_outcome s op
  pub state : Journal.state j op ≡ State.effect_state s op

mem-last {ℓ} : {A : Type ℓ} (xs : List A) (x : A) → last xs ≡ some x → Memᴰ x xs
unfolding last
mem-last [] x e = absurd (cc)
mem-last (y ∷ []) x e = Memᴰ.head (ground arith)
mem-last (y ∷ z ∷ xs) x e = Memᴰ.tail (mem-last (z ∷ xs) x e)

last-map {ℓ κ} :
    {A : Type ℓ} {B : Type κ} (f : A → B) (xs : List A)
    → last (map f xs) ≡ (elim (last xs) [ some x ↦ some (f x) | none ↦ none ])
unfolding last
last-map f [] = refl
last-map f (x ∷ []) = refl
last-map f (x ∷ y ∷ xs) = last-map f (y ∷ xs)

last_attempt-attempts :
    (j : DurableJournal) (op : OperationId) → last_attempt j op ≡ last (attempts j op)
unfolding last_attempt last
last_attempt-attempts j op = ground arith

module _ (s : DurableRunState) (j : DurableJournal) (op : OperationId) (l : Lineage s)
    (same : SameFacts s j) where
  last_dispatched :
      last_attempt j op ≡ (elim (latest_dispatch s op) [ some d ↦ some d.attempt_id | none ↦ none ])
  unfolding latest_dispatch
  last_dispatched =
      last_attempt-attempts j op
      ∙ (ap last (same.same_attempts op) ∙ last-map dispatch_attempt (dispatches s op))

  found_dispatch :
      (d : DispatchRecord) → latest_dispatch s op ≡ some d → get d.attempt_id j.dispatches ≡ some d
  unfolding latest_dispatch dispatches
  found_dispatch d e =
      let m = mem-last (dispatches s op) d e in
      same.same_dispatches d.attempt_id
      ∙ (l.dispatches.found d.attempt_id
          ∙ find_by-mem dispatch_attempt s.dispatch_history d l.dispatches.attempts
              ((mem-filter (λ x. x.operation_id == op) d s.dispatch_history).0 m).0)

  pub agrees : Agrees s j op
  unfolding Journal.latest_dispatch Journal.known_outcome Journal.state State.intent
      State.latest_outcome State.outcome_for_attempt State.effect_state
  agrees = by_dispatch (latest_dispatch s op) refl
    where
      by_dispatch : (o : Option DispatchRecord) → latest_dispatch s op ≡ o → Agrees s j op
      by_dispatch none e = record {
        intent = same.same_intents op;
        latest_dispatch = ground (arith, last_dispatched);
        known_outcome = ground (arith, last_dispatched);
        state = ground (arith, last_dispatched, same.same_intents op);
      }
      by_dispatch (some d) e = record {
        intent = same.same_intents op;
        latest_dispatch = ground (arith, last_dispatched, found_dispatch d e);
        known_outcome = ground (arith, last_dispatched, same.same_outcomes d.attempt_id);
        state = ground (
          arith,
          last_dispatched,
          found_dispatch d e,
          same.same_intents op,
          same.same_outcomes d.attempt_id,
        );
      }

-- For every run of a store that a client can reach, the journal can be rebuilt from the run's state,
-- and for every operation both give the same intent, latest dispatch, latest outcome and effect
-- state.
pub from_durable_state-Agrees :
    {store : InMemoryDurableStore} (run : RunId) (s : DurableRunState)
    → Later Store.new store
    → get run store.runs ≡ some s
    → (j : DurableJournal) × (from_durable_state s ≡ ok j) × ((op : OperationId) → Agrees s j op)
unfolding get
from_durable_state-Agrees {store} run s l e =
    let sound : Lineage s =
      elim (Later-Holds Lineage Lineage-IsKept run l (inl (refl, new-Lineage run))) [
        | inl (free, _) ↦ absurd (ground arith)
        | inr (t, found, p) ↦ let same : t ≡ s = ground arith in subst Lineage same p
      ] in
    let (j, f, same) = rebuilds s sound in (j, f, λ op. agrees s j op sound same)
