-- ===== src/Runtime/Durability/Rebuilt.antt =====
-- What the store gives back: the journal that is rebuilt from it, and the cancelled tasks.
use graph_core.Base.{◌≡◌, refl, sym, ◌∙◌, List, [], ◌∷◌, is_some, ◌||◌, arith}
use graph_core.Base.Results.{Result, ok, err, panic, out_of_fuel, ◌>>=◌}
use graph_core.Base.Lookup.{find_by}
use graph_core.Base.BTreeMap.{BTreeSet, get, insert, get-insert, contains_key, values}
use graph_core.Core.Ident.{Ident, ident_ord}
use graph_core.Recovery.Model.{OperationId, operation_ord, attempt_ord}
use graph_core.Recovery.Journal.{
  DurableJournal, JournalError, attempts, persist_intent, persist_dispatch, persist_outcome,
}
use graph_core.Recovery.Journal
use graph_core.Recovery.Journal.Invariant.{
  IsValid, Leaves, new-IsValid, persist_intent-Leaves, persist_dispatch-Leaves,
  persist_outcome-Leaves,
}
use graph_core.Recovery.Durable.Facts.{run_ord, CancellationRecord}
use graph_core.Recovery.Durable.State.{DurableRunState, is_cancelled, cancellations, intents}
use graph_core.Recovery.Durable.Store.{persist_all, from_durable_state}
use graph_core.Recovery.Durable.Agreement.{SameFacts, agrees}
use graph_core.Recovery.Durable.Lineage.{Lineage}
use graph_core.Runtime.Start.{restore_cancelled}
use graph_core.Runtime.Durability.Sound.{DispatchedOnce, CancelledByTask, cancelled_task}

Leaves-bind :
    (u : Result JournalError DurableJournal)
    (f : DurableJournal → Result JournalError DurableJournal)
    → Leaves u
    → ((j : DurableJournal) → IsValid j → Leaves (f j))
    → Leaves (u >>= f)
Leaves-bind (ok j) f h k = k j h
Leaves-bind (err _) f h k = h
Leaves-bind panic f h k = h
Leaves-bind out_of_fuel f h k = h

module _ {A : Type 0} (persist : DurableJournal → A → Result JournalError DurableJournal)
    (leaves : (j : DurableJournal) (x : A) → IsValid j → Leaves (persist j x)) where
  persist_all-Leaves :
      (j : DurableJournal) (xs : List A) → IsValid j → Leaves (persist_all persist j xs)
  unfolding persist_all
  persist_all-Leaves j [] v = v
  persist_all-Leaves j (x ∷ xs) v =
      Leaves-bind (persist j x) (λ k. persist_all persist k xs) (leaves j x v)
        (λ k w. persist_all-Leaves k xs w)

pub from_durable_state-Leaves : (s : DurableRunState) → Leaves (from_durable_state s)
unfolding from_durable_state
from_durable_state-Leaves s =
    Leaves-bind (persist_all persist_intent Journal.new (intents s)) _
      (persist_all-Leaves persist_intent persist_intent-Leaves Journal.new (intents s) new-IsValid)
      (λ i v.
        Leaves-bind (persist_all persist_dispatch i s.dispatch_history) _
          (persist_all-Leaves persist_dispatch persist_dispatch-Leaves i s.dispatch_history v)
          (λ j w. persist_all-Leaves persist_outcome persist_outcome-Leaves j s.outcome_history w))

-- The loop over the cancellations adds their tasks.
contains_key-restore_cancelled :
    (cs : List CancellationRecord) (m : BTreeSet Ident) (t : Ident)
    → contains_key t (restore_cancelled cs m)
      ≡ (is_some (find_by cancelled_task t cs) || contains_key t m)
unfolding restore_cancelled find_by
contains_key-restore_cancelled [] m t = refl
contains_key-restore_cancelled (c ∷ cs) m t = ground (
  arith,
  contains_key-restore_cancelled cs (insert c.task_id tt m) t,
  get-insert t c.task_id tt m,
)

pub restored_cancelled :
    (s : DurableRunState)
    → CancelledByTask s
    → (t : Ident) → contains_key t (restore_cancelled (cancellations s) []) ≡ is_cancelled s t
unfolding cancellations is_cancelled get
restored_cancelled s keyed t =
    ground (arith, contains_key-restore_cancelled (values s.cancellations) [] t, keyed t)

-- Both journals give the same answers about the operation.
pub record SameAnswers (j k : DurableJournal) (op : OperationId) : Type 0 where
  pub intent : get op k.intents ≡ get op j.intents
  pub attempts : attempts k op ≡ attempts j op
  pub latest_dispatch : Journal.latest_dispatch k op ≡ Journal.latest_dispatch j op
  pub known_outcome : Journal.known_outcome k op ≡ Journal.known_outcome j op
  pub state : Journal.state k op ≡ Journal.state j op

module _ (s : DurableRunState) (j k : DurableJournal) (l : Lineage s) (a : SameFacts s j)
    (b : SameFacts s k) where
  pub same_answers : (op : OperationId) → SameAnswers j k op
  same_answers op =
      let x = agrees s j op l a in
      let y = agrees s k op l b in
      record {
        intent = b.same_intents op ∙ sym (a.same_intents op);
        attempts = b.same_attempts op ∙ sym (a.same_attempts op);
        latest_dispatch = y.latest_dispatch ∙ sym x.latest_dispatch;
        known_outcome = y.known_outcome ∙ sym x.known_outcome;
        state = y.state ∙ sym x.state;
      }

  pub once_again : DispatchedOnce j → DispatchedOnce k
  once_again once op i there n =
      let same = same_answers op in rw (same.attempts) (once op i (sym same.intent ∙ there) n)
