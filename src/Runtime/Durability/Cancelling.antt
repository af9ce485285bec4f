-- ===== src/Runtime/Durability/Cancelling.antt =====
-- `cancel_task` keeps the invariant.
use graph_core.Base.{
  ◌≡◌, refl, sym, ap, ◌∙◌, inl, inr, true, ◌++◌, is_some, arith, Bool-cases, if◌then◌else◌, subst,
  Option, none, some, Option-cases,
}
use graph_core.Base.Results.{ok, err, panic, out_of_fuel}
use graph_core.Base.Texts.{codes}
use graph_core.Base.Order.{◌==◌, ==_iff, ==_refl}
use graph_core.Base.BTreeMap.{insert, contains_key, get-insert}
use graph_core.Core.Ident.{Ident, ident_ord}
use graph_core.Workflow.Topology.{task}
use graph_core.Recovery.Journal.{DurableJournal, operation_for_task, latest_dispatch}
use graph_core.Recovery.Durable.Facts.{CancellationRecord, record_cancellation, StoreRevision}
use graph_core.Recovery.Durable.State.{DurableRunState, is_cancelled, dispatches}
use graph_core.Recovery.Durable.Agreement.{SameFacts}
use graph_core.Runtime.State.{Runtime, Cancellation, not_dispatched, already_dispatched}
use graph_core.Runtime.Action.{Outcome, onward}
use graph_core.Runtime.Effects.{cancel_task, cancelled_attempt, report_cancellation}
use graph_core.Runtime.Durability.Commits.{Took, Committed, commit_durable-Committed}
use graph_core.Runtime.Durability.Persists.{seal-SameFacts}
use graph_core.Recovery.Model.{DispatchRecord, OperationId}
use graph_core.Runtime.Durability.Sound.{Sound, Ends, Ends-weaken, CancelledByTask, cancelled_task}
use graph_core.Base.Lookup.{find_by-values-insert}

module _ (s s' : DurableRunState) (c : CancellationRecord) where
  cancelled-SameFacts :
      (j : DurableJournal) → SameFacts s j → Took s (record_cancellation c) s' → SameFacts s' j
  unfolding dispatches
  cancelled-SameFacts j h (inl (p, _)) = rw p h
  cancelled-SameFacts j h (inr (d, inl (_, p), (request, revision, q))) =
      rw q (seal-SameFacts d request revision j (rw p h))
  cancelled-SameFacts j h (inr (d, inr (_, _, _, p), (request, revision, q))) = rw q (
      seal-SameFacts d request revision j (
        rw p (record {
          same_intents = h.same_intents;
          same_dispatches = h.same_dispatches;
          same_attempts = h.same_attempts;
          same_outcomes = h.same_outcomes;
        })))

  is_cancelled_after :
      Took s (record_cancellation c) s'
      → (t : Ident) → is_cancelled s' t ≡ (if c.task_id == t then true else is_cancelled s t)
  unfolding is_cancelled
  is_cancelled_after (inl (p, there)) t = ground (arith, p, ==_iff c.task_id t)
  is_cancelled_after (inr (d, inl (there, p), (request, revision, q))) t =
      ground (arith, p, q, ==_iff c.task_id t)
  is_cancelled_after (inr (d, inr (_, _, _, p), (request, revision, q))) t =
      ground (arith, p, q, get-insert t c.task_id c s.cancellations)

  keyed_after : CancelledByTask s → Took s (record_cancellation c) s' → CancelledByTask s'
  keyed_after h (inl (p, _)) = rw p h
  keyed_after h (inr (d, inl (_, p), (request, revision, q))) = rw q (rw p h)
  keyed_after h (inr (d, inr (fresh, _, _, p), (request, revision, q))) = λ t. ground (
    arith,
    p,
    q,
    get-insert t c.task_id c s.cancellations,
    find_by-values-insert cancelled_task c.task_id c s.cancellations fresh
        (sym (h c.task_id) ∙ fresh) t,
    h t,
  )

-- The report on a cancellation: the task, and the latest dispatch of its effect if there is one.
abbrev pub Reports : Runtime → Ident → Cancellation → Type 0
Reports r task_id (not_dispatched t) =
    (t ≡ task_id)
    × ((op : OperationId)
        → operation_for_task r.journal task_id ≡ some op
        → latest_dispatch r.journal op ≡ none)
Reports r task_id (already_dispatched t op a) =
    (t ≡ task_id)
    × (operation_for_task r.journal task_id ≡ some op)
    × ((d : DispatchRecord) × (latest_dispatch r.journal op ≡ some d) × (d.attempt_id ≡ a))

report_cancellation-Reports :
    (r : Runtime) (task_id : Ident) (o : Option OperationId)
    → operation_for_task r.journal task_id ≡ o
    → Reports r task_id (report_cancellation r task_id o)
report_cancellation-Reports r task_id none e = (refl, λ op h. cc)
report_cancellation-Reports r task_id (some op) e =
    elim (Option-cases (latest_dispatch r.journal op)) [
      | inl n ↦ rw (n, report_cancellation) (refl, λ op' h. none_of op' h n)
      | inr (d, k) ↦ rw (k, report_cancellation) (refl, e, (d, k, refl))
    ]
  where
    none_of :
        (op' : OperationId)
        → operation_for_task r.journal task_id ≡ some op'
        → latest_dispatch r.journal op ≡ none
        → latest_dispatch r.journal op' ≡ none
    none_of op' h n = cc

module _ (r : Runtime) (sound : Sound r) (c : CancellationRecord) where
  cancelled-Sound :
      (x : Cancellation) (o : Outcome StoreRevision)
      → Committed (record_cancellation c) r sound.run o
      → Ends
          (λ r'. r' ≡ r)
          (λ y r'.
            (y ≡ x)
            × Sound r'
            × (contains_key c.task_id r'.cancelled ≡ true)
            × (r'.journal ≡ r.journal)
            × (r'.workflow ≡ r.workflow))
          (onward o.0 o.1 (λ _ t. (record t { cancelled = insert c.task_id tt t.cancelled }, ok x)))
  cancelled-Sound x (r', ok _) (s', stored, took, e) =
      let journal : r'.journal ≡ r.journal = ap (λ (x : Runtime). x.journal) e in
      let cancelled : r'.cancelled ≡ r.cancelled = ap (λ (x : Runtime). x.cancelled) e in
      (
        refl,
        record {
          run = s';
          stored = stored;
          facts = rw journal (cancelled-SameFacts sound.run s' c r.journal sound.facts took);
          withdrawn = λ t. ground (
            arith,
            cancelled,
            sound.withdrawn t,
            is_cancelled_after sound.run s' c took t,
            get-insert t c.task_id tt r'.cancelled,
          );
          keyed = keyed_after sound.run s' c sound.keyed took;
          valid = rw journal sound.valid;
          once = rw journal sound.once;
        },
        ground (arith, get-insert c.task_id c.task_id tt r'.cancelled, ==_refl c.task_id),
        journal,
        ap (λ (x : Runtime). x.workflow) e,
      )
  cancelled-Sound x (r', err _) h = h
  cancelled-Sound x (r', panic) h = h
  cancelled-Sound x (r', out_of_fuel) h = h

-- A cancellation returns. It marks the task in the runtime as in the store, changes neither journal
-- nor workflow, and reports the latest dispatch of the task's effect if there is one; an error
-- changes nothing.
pub cancel_task_lem :
    (r : Runtime) (task_id : Ident)
    → Sound r
    → Ends
        (λ r'. r' ≡ r)
        (λ x r'.
          Reports r task_id x
          × Sound r'
          × (contains_key task_id r'.cancelled ≡ true)
          × (r'.journal ≡ r.journal)
          × (r'.workflow ≡ r.workflow))
        (cancel_task task_id r)
unfolding cancel_task
cancel_task_lem r task_id sound = elim (Bool-cases (is_some (task r.workflow.topology task_id))) [
  | inr e ↦ rw (e, cancel_task) refl
  | inl e ↦
      let op = operation_for_task r.journal task_id in
      let c : CancellationRecord = record {
        run_id = r.run_id;
        task_id = task_id;
        operation_id = op;
        attempt_id = cancelled_attempt r task_id op;
      } in
      let report = report_cancellation r task_id op in
      rw (e, cancel_task)
        (Ends-weaken (λ r'. r' ≡ r) (λ r'. r' ≡ r)
          (λ y r'.
            (y ≡ report)
            × Sound r'
            × (contains_key task_id r'.cancelled ≡ true)
            × (r'.journal ≡ r.journal)
            × (r'.workflow ≡ r.workflow))
          (λ x r'.
            Reports r task_id x
            × Sound r'
            × (contains_key task_id r'.cancelled ≡ true)
            × (r'.journal ≡ r.journal)
            × (r'.workflow ≡ r.workflow))
          _ (λ _ h. h)
          (λ y r' (q, s, there, j, w). (
            subst (Reports r task_id) (sym q) (report_cancellation-Reports r task_id op refl),
            s,
            there,
            j,
            w,
          ))
          (cancelled-Sound r sound c report _ (
            commit_durable-Committed (codes "cancel:" ++ task_id.value) (record_cancellation c) r
              sound.run sound.stored)))
]
