-- ===== src/Recovery/Durable/Cancellation.antt =====
-- A cancelled task is dispatched no more.
use graph_core.Base.{◌≡◌, sym, ◌≢◌, ◌⊎◌, inl, inr, true, some, Memᴰ, Memᴰ-concat, arith, subst}
use graph_core.Base.Order.{==_iff}
use graph_core.Base.BTreeMap.{get, get-insert}
use graph_core.Core.Ident.{Ident, ident_ord}
use graph_core.Recovery.Model.{attempt_ord, DispatchRecord}
use graph_core.Recovery.Durable.Facts.{
  RunId, run_ord, AttemptAdmission, DurableMutation, admit_attempt, record_intent,
  record_cancellation, record_dispatch, record_outcome,
}
use graph_core.Recovery.Durable.State.{DurableRunState, is_cancelled}
use graph_core.Recovery.Durable.State
use graph_core.Recovery.Durable.Accepted.{Accepted}
use graph_core.Recovery.Durable.Store.{InMemoryDurableStore}
use graph_core.Recovery.Durable.Replays.{Later}
use graph_core.Recovery.Durable.Runs.{IsKept, Later-Holds}

-- The dispatch is for an attempt that was admitted for another task.
abbrev pub ForAnother : Ident → DurableRunState → DispatchRecord → Type 0
ForAnother task t d =
    (a : AttemptAdmission) × (get d.attempt_id t.admissions ≡ some a) × (a.task_id ≢ task)

-- From `s` on, the task is cancelled and every further dispatch is for another task.
pub record Withheld (s : DurableRunState) (task : Ident) (t : DurableRunState) : Type 0 where
  pub cancelled : is_cancelled t task ≡ true
  pub dispatches :
      (d : DispatchRecord)
      → Memᴰ d t.dispatch_history
      → Memᴰ d s.dispatch_history ⊎ ForAnother task t d

module _ (s : DurableRunState) (task : Ident) where
  by_mutation :
      (t : DurableRunState) (m : DurableMutation) (t' : DurableRunState)
      → Accepted t m t'
      → Withheld s task t
      → Withheld s task t'
  unfolding is_cancelled
  by_mutation t (admit_attempt a) t' (_, fresh, e) w = rw e (record {
    cancelled = w.cancelled;
    dispatches = λ d m. elim (w.dispatches d m) [
      | inl old ↦ inl old
      | inr (b, p, q) ↦ inr (
        b,
        ground (
          arith,
          get-insert d.attempt_id a.attempt_id a t.admissions,
          ==_iff a.attempt_id d.attempt_id,
        ),
        q,
      )
    ];
  })
  by_mutation t (record_intent i) t' (inl (_, e)) w = subst (Withheld s task) (sym e) w
  by_mutation t (record_intent i) t' (inr (_, _, e)) w =
      rw e (record { cancelled = w.cancelled; dispatches = w.dispatches })
  by_mutation t (record_cancellation c) t' (inl (_, e)) w = subst (Withheld s task) (sym e) w
  by_mutation t (record_cancellation c) t' (inr (_, _, _, e)) w = rw e (record {
    cancelled = ground (arith, get-insert task c.task_id c t.cancellations, w.cancelled);
    dispatches = w.dispatches;
  })
  by_mutation t (record_dispatch x) t' k w = rw (k.changed) (record {
    cancelled = w.cancelled;
    dispatches = λ d m. elim ((Memᴰ-concat d x t.dispatch_history).0 m) [
      | inl old ↦ w.dispatches d old
      | inr e ↦ inr (
        k.admission,
        ground (arith, k.admitted, e),
        λ q. ground (arith, k.not_cancelled, w.cancelled, q),
      )
    ];
  })
  by_mutation t (record_outcome o) t' k w = elim k.changed [
    | inl (_, _, _, e) ↦ subst (Withheld s task) (sym e) w
    | inr (_, e) ↦ rw e (record { cancelled = w.cancelled; dispatches = w.dispatches })
  ]

  Withheld-IsKept : IsKept (Withheld s task)
  unfolding is_cancelled
  Withheld-IsKept = record {
    by_mutation = by_mutation;
    by_seal = λ t request revision w. record { cancelled = w.cancelled; dispatches = w.dispatches };
  }

none_at_start : (run : RunId) (task : Ident) → is_cancelled (State.new run) task ≢ true
unfolding is_cancelled get
none_at_start run task h = cc

-- Once a run has a cancellation of a task, then after any later calls of the store the run still has
-- it, and every dispatch that was added is for an attempt admitted for another task.
pub cancelled_never_dispatched :
    (store : InMemoryDurableStore) {later : InMemoryDurableStore} (run : RunId)
    (s : DurableRunState) (task : Ident)
    → get run store.runs ≡ some s
    → is_cancelled s task ≡ true
    → Later store later
    → (t : DurableRunState) × (get run later.runs ≡ some t) × Withheld s task t
cancelled_never_dispatched store {later} run s task found c l =
    elim (Later-Holds (Withheld s task) (Withheld-IsKept s task) run l
      (inr (s, found, record { cancelled = c; dispatches = λ d m. inl m }))) [
        | inr h ↦ h
        | inl (free, w) ↦ absurd (none_at_start run task w.cancelled)
      ]
