-- ===== src/Recovery/Decision/Safety.antt =====
-- What each recovery action means, and which effects are never run again.
use graph_core.Base.{
  ◌≡◌, refl, sym, ◌∙◌, subst, ◌≢◌, ◌⊎◌, inl, inr, Bool, true, false, List, [], Option, none, some,
  is_some, unwrap_or, last_of_mem, Memᴰ, arith, Bool-cases,
}
use graph_core.Base.Results.{Result, ok}
use graph_core.Base.BTreeMap.{get}
use mathlib.Core.List.Memᴰ
use graph_core.Core.Ident.{ident_ord}
use graph_core.Workflow.Topology.{task}
use graph_core.Workflow.Facts.{is_completed}
use graph_core.Workflow.Graph.{WorkflowGraph}
use graph_core.Recovery.Model.{
  OperationId, AttemptId, operation_ord, attempt_ord, EffectIntent, EffectSemantics, idempotent,
  non_idempotent, KnownEffectOutcome, succeeded, failed, DispatchRecord, OutcomeRecord,
  RecoveredEffectState, not_prepared, prepared, outcome_known, outcome_unknown, RecoveryAction,
  execute, retry_same_operation, complete_without_reexecution, reconcile, no_action,
  observe_failure, invariant_violation, RecoveryDecision, idempotent_outcome_unknown,
  non_idempotent_outcome_unknown,
}
use graph_core.Recovery.Journal.{
  DurableJournal, JournalError, unknown_operation, latest_dispatch, known_outcome, last_attempt,
  attempts, state,
}
use graph_core.Recovery.Journal
use graph_core.Recovery.Journal.{new}
use graph_core.Recovery.Journal.Invariant.{IsValid}
use graph_core.Recovery.Journal.History.{Grown, Grown-Keeps, Grown-keeps-IsValid, journal-IsValid}
use graph_core.Recovery.Decision.{
  classify_recovery, decide_state, decide_known, decide_unknown, invariant_decision,
}

module _ (w : WorkflowGraph) (j : DurableJournal) (op : OperationId) (i : EffectIntent) where
  abbrev pub known_task : Bool
  known_task = is_some (task w.topology i.task_id)

  abbrev pub completed : Bool
  completed = is_completed w.facts i.task_id

  -- The facts under which an action is chosen.
  abbrev pub Grounds : RecoveryAction → Type 0
  Grounds execute = (known_task ≡ true) × (completed ≡ false) × (state j op ≡ prepared)
  Grounds retry_same_operation =
      (known_task ≡ true)
      × (completed ≡ false)
      × (state j op ≡ outcome_unknown)
      × (i.semantics ≡ idempotent)
  Grounds reconcile =
      (known_task ≡ true)
      × (completed ≡ false)
      × (state j op ≡ outcome_unknown)
      × (i.semantics ≡ non_idempotent)
  Grounds complete_without_reexecution =
      (known_task ≡ true) × (completed ≡ false) × (state j op ≡ outcome_known succeeded)
  Grounds observe_failure =
      (known_task ≡ true) × (completed ≡ false) × (state j op ≡ outcome_known failed)
  Grounds no_action =
      (known_task ≡ true) × (completed ≡ true) × (state j op ≡ outcome_known succeeded)
  Grounds invariant_violation =
      (known_task ≡ false) ⊎ (completed ≡ true) × (state j op ≢ outcome_known succeeded)

  state_unknown :
      state j op ≡ outcome_unknown → (d : DispatchRecord) × (latest_dispatch j op ≡ some d)
  unfolding state
  state_unknown h = by_dispatch (latest_dispatch j op) refl
    where
      by_dispatch :
          (o : Option DispatchRecord)
          → latest_dispatch j op ≡ o
          → (d : DispatchRecord) × (latest_dispatch j op ≡ some d)
      by_dispatch (some d) e = (d, e)
      by_dispatch none e = absurd (ground arith)

  pub state_known :
      (k : KnownEffectOutcome)
      → state j op ≡ outcome_known k
      → (r : OutcomeRecord) × (known_outcome j op ≡ some r)
  unfolding state
  state_known k h = by_outcome (known_outcome j op) refl
    where
      by_outcome :
          (o : Option OutcomeRecord)
          → known_outcome j op ≡ o
          → (r : OutcomeRecord) × (known_outcome j op ≡ some r)
      by_outcome (some r) e = (r, e)
      by_outcome none e = absurd (ground arith)

  state_prepared : get op j.intents ≡ some i → state j op ≢ not_prepared
  unfolding state
  state_prepared e h = ground arith

  abbrev Decides : Result JournalError RecoveryDecision → Type 0
  Decides r = (d : RecoveryDecision) × (r ≡ ok d) × Grounds d.action

  mismatch :
      (s : RecoveredEffectState)
      → state j op ≡ s
      → s ≢ outcome_known succeeded
      → completed ≡ true
      → Decides (ok (invariant_decision op i s))
  unfolding invariant_decision
  mismatch s e n c = (invariant_decision op i s, refl, inr (c, λ q. n (sym e ∙ q)))

  decide_unknown-Decides :
      (d : DispatchRecord) (b : Bool) (x : EffectSemantics)
      → known_task ≡ true
      → state j op ≡ outcome_unknown
      → completed ≡ b
      → i.semantics ≡ x
      → Decides (decide_unknown op i b d)
  unfolding decide_unknown
  decide_unknown-Decides d true x k e c s = mismatch outcome_unknown e (λ q. cc) c
  decide_unknown-Decides d false idempotent k e c s = (
    record { action = retry_same_operation; reason = idempotent_outcome_unknown op d.attempt_id },
    ground (arith, s),
    (k, c, e, s),
  )
  decide_unknown-Decides d false non_idempotent k e c s = (
    record { action = reconcile; reason = non_idempotent_outcome_unknown op d.attempt_id },
    ground (arith, s),
    (k, c, e, s),
  )

  decide_known-Decides :
      (r : OutcomeRecord) (b : Bool) (x : KnownEffectOutcome)
      → known_task ≡ true
      → state j op ≡ outcome_known x
      → completed ≡ b
      → Decides (decide_known op i b x r)
  unfolding decide_known
  decide_known-Decides r true succeeded k e c = (_, refl, (k, c, e))
  decide_known-Decides r false succeeded k e c = (_, refl, (k, c, e))
  decide_known-Decides r true failed k e c = mismatch (outcome_known failed) e (λ q. cc) c
  decide_known-Decides r false failed k e c = (_, refl, (k, c, e))

  decide_state-Decides :
      (s : RecoveredEffectState) (b : Bool)
      → get op j.intents ≡ some i
      → known_task ≡ true
      → state j op ≡ s
      → completed ≡ b
      → Decides (decide_state j op i b s)
  unfolding decide_state
  decide_state-Decides not_prepared b h k e c = absurd (state_prepared h e)
  decide_state-Decides prepared true h k e c = mismatch prepared e (λ q. cc) c
  decide_state-Decides prepared false h k e c = (_, refl, (k, c, e))
  decide_state-Decides (outcome_known x) b h k e c =
      let (r, p) = state_known x e in rw (p, decide_state) (decide_known-Decides r b x k e c)
  decide_state-Decides outcome_unknown b h k e c =
      let (d, p) = state_unknown e in
      rw (p, decide_state) (decide_unknown-Decides d b i.semantics k e c refl)

  -- An operation with an intent is always classified, without a panic, and the action that is chosen
  -- has its grounds: whether the task is known and completed, what the journal knows of the effect,
  -- and, where the outcome is unknown, whether the effect may be repeated.
  pub classify_recovery_lem :
      get op j.intents ≡ some i
      → (d : RecoveryDecision) × (classify_recovery w j op ≡ ok d) × Grounds d.action
  unfolding classify_recovery Journal.intent invariant_decision
  classify_recovery_lem h = elim (Bool-cases known_task) [
    | inr k ↦ rw (h, classify_recovery) (rw k (invariant_decision op i (state j op), refl, inl k))
    | inl k ↦
        rw (h, classify_recovery) (rw k (decide_state-Decides (state j op) completed h k refl refl))
  ]

pub not-prepared_of_dispatch :
    (j : DurableJournal) (op : OperationId) (d : DispatchRecord)
    → latest_dispatch j op ≡ some d
    → state j op ≢ prepared
unfolding state
not-prepared_of_dispatch j op d e h = ground arith

-- On a journal with sound lineage, an operation with a dispatch has a latest dispatch.
pub latest_dispatch_of_dispatched :
    (j : DurableJournal) (a : AttemptId) (x : DispatchRecord)
    → IsValid j
    → get a j.dispatches ≡ some x
    → (d : DispatchRecord) × (latest_dispatch j x.operation_id ≡ some d)
unfolding latest_dispatch last_attempt
latest_dispatch_of_dispatched j a x v e =
    let (_, _, member) = v.dispatched a x e in
    by_entry (get x.operation_id j.operation_attempts) refl member
  where
    by_entry :
        (o : Option (List AttemptId))
        → get x.operation_id j.operation_attempts ≡ o
        → Memᴰ a (unwrap_or [] (get x.operation_id j.operation_attempts))
        → (d : DispatchRecord) × (latest_dispatch j x.operation_id ≡ some d)
    by_entry none p m = absurd (Memᴰ.not-nil (rw p at m))
    by_entry (some as_) p m =
        let (b, q, r) = last_of_mem as_ (rw p at m) in
        let (d, s, _) = v.attempted x.operation_id b (rw p r) in
        (d, rw (p, latest_dispatch, last_attempt) (rw q s))

pub never_repeats_after_dispatch :
    (w : WorkflowGraph) (j : DurableJournal) (op : OperationId) (i : EffectIntent)
    (y : DispatchRecord)
    → get op j.intents ≡ some i
    → i.semantics ≡ non_idempotent
    → latest_dispatch j op ≡ some y
    → (d : RecoveryDecision) × (classify_recovery w j op ≡ ok d)
      × (d.action ≢ execute)
      × (d.action ≢ retry_same_operation)
never_repeats_after_dispatch w j op i y h s latest =
    let (d, c, g) = classify_recovery_lem w j op i h in
    (
      d,
      c,
      λ q. not-prepared_of_dispatch j op y latest (subst (Grounds w j op i) q g).2,
      λ q. cc ((subst (Grounds w j op i) q g).3),
    )

-- Once an effect that may not be repeated has been dispatched, then whatever the journal records
-- later and whatever the workflow is, its operation is classified and the decision neither executes
-- nor retries it.
pub classify_recovery_never_repeats :
    (w : WorkflowGraph) {j k : DurableJournal} (i : EffectIntent) (a : AttemptId)
    (x : DispatchRecord)
    → Grown new j
    → get x.operation_id j.intents ≡ some i
    → i.semantics ≡ non_idempotent
    → get a j.dispatches ≡ some x
    → Grown j k
    → (d : RecoveryDecision) × (classify_recovery w k x.operation_id ≡ ok d)
      × (d.action ≢ execute)
      × (d.action ≢ retry_same_operation)
classify_recovery_never_repeats w {j} {k} i a x g h s e later =
    let kept = Grown-Keeps later in
    let (y, latest) =
      latest_dispatch_of_dispatched k a x (Grown-keeps-IsValid (journal-IsValid g) later)
        (kept.dispatches a x e) in
    never_repeats_after_dispatch w k x.operation_id i y (kept.intents x.operation_id i h) s latest
