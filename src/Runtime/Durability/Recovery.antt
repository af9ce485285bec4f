-- ===== src/Runtime/Durability/Recovery.antt =====
-- `recover`.
use graph_core.Base.{
  ◌≡◌, ◌≢◌, ◌↔◌, subst, refl, ◌⊎◌, inl, inr, true, false, none, some, arith, Bool-cases,
  Option-cases,
}
use graph_core.Base.Results.{Result, ok, err}
use graph_core.Base.BTreeMap.{get}
use graph_core.Core.Ident.{ident_ord}
use graph_core.Workflow.Facts.{is_completed}
use graph_core.Workflow.Graph.{WorkflowGraph}
use graph_core.Recovery.Model.{
  OperationId, operation_ord, EffectIntent, RecoveryAction, complete_without_reexecution, execute,
  retry_same_operation, reconcile, no_action, observe_failure, invariant_violation, succeeded,
  RecoveryDecision, OutcomeRecord, outcome_known,
}
use graph_core.Recovery.Journal.{
  DurableJournal, JournalError, operation_for_task, known_outcome, unknown_operation,
}
use graph_core.Recovery.Journal
use graph_core.Recovery.Decision.{classify_recovery}
use graph_core.Recovery.Decision.Safety.{Grounds, state_known, classify_recovery_lem}
use graph_core.Runtime.State.{
  Runtime, workflow, RuntimeError, journal, stream, execution_backpressure,
}
use graph_core.Runtime.Action.{◌>>◌}
use graph_core.Runtime.Events.{emit_completed}
use graph_core.Runtime.Effects.{complete_task, apply_success, is_completion, recover}
use graph_core.Runtime.Durability.Sound.{Sound}
use graph_core.Runtime.Durability.Endings.{Concludes, Concludes-onward, Concludes-weaken}
use graph_core.Runtime.Durability.Finishing.{Kept, Kept-refl, Finished, Unfinished, finish_lem}

-- The decision is to complete the task without executing the effect again, whose success is known.
pub record Completable (r : Runtime) (op : OperationId) (d : RecoveryDecision) (i : EffectIntent)
    (o : OutcomeRecord) : Type 0 where
  pub decided : classify_recovery r.workflow r.journal op ≡ ok d
  pub completion : d.action ≡ complete_without_reexecution
  pub intended : get op r.journal.intents ≡ some i
  pub succeeds : Journal.state r.journal op ≡ outcome_known succeeded
  pub known : known_outcome r.journal op ≡ some o

-- The decision that journal and workflow call for is reported. Where it is to complete, the task is
-- finished with the attempt of the known outcome, and else nothing changes.
abbrev pub Recovered : Runtime → OperationId → RecoveryDecision → Runtime → Type 0
Recovered r op d r' =
    (classify_recovery r.workflow r.journal op ≡ ok d)
    × (((d.action ≢ complete_without_reexecution) × (r' ≡ r))
        ⊎ ((i : EffectIntent) × (o : OutcomeRecord) × Completable r op d i o
            × Finished r i.task_id o.attempt_id r'))

-- The operation is unknown, or the task that was to be completed could not be finished.
abbrev pub Unrecovered : Runtime → OperationId → RuntimeError → Runtime → Type 0
Unrecovered r op (journal (unknown_operation o)) r' =
    (o ≡ op) × (get op r.journal.intents ≡ none) × (r' ≡ r)
Unrecovered r op e r' =
    (d : RecoveryDecision) × (i : EffectIntent) × (o : OutcomeRecord) × Completable r op d i o
    × Unfinished r i.task_id o.attempt_id e r'

module _ (r : Runtime) (op : OperationId) (d : RecoveryDecision) (i : EffectIntent)
    (o : OutcomeRecord) (can : Completable r op d i o) where
  Unrecovered-of_Unfinished :
      (e : RuntimeError) (r' : Runtime)
      → Unfinished r i.task_id o.attempt_id e r'
      → Unrecovered r op e r'
  Unrecovered-of_Unfinished (workflow _) r' h = (d, i, o, can, h)
  Unrecovered-of_Unfinished (stream _) r' h = (d, i, o, can, h)
  Unrecovered-of_Unfinished (execution_backpressure _) r' h = (d, i, o, can, h)
  Unrecovered-of_Unfinished _ r' (_, h) = absurd h

  apply_success_finishes :
      is_completed r.workflow.facts i.task_id ≡ false
      → apply_success op r ≡ (complete_task i.task_id >> emit_completed i.task_id o.attempt_id) r
  unfolding apply_success Journal.intent
  apply_success_finishes fresh = rw (can.intended, apply_success) (rw (can.known) (rw fresh refl))

  apply_success-Concludes :
      Sound r
      → is_completed r.workflow.facts i.task_id ≡ false
      → Concludes
          (λ e r'. Kept r r' × Unrecovered r op e r')
          (λ _ r'. Kept r r' × Finished r i.task_id o.attempt_id r')
          (apply_success op r)
  apply_success-Concludes sound fresh = rw (apply_success_finishes fresh) (
      Concludes-weaken (λ e r'. Kept r r' × Unfinished r i.task_id o.attempt_id e r')
        (λ e r'. Kept r r' × Unrecovered r op e r')
        (λ _ r'. Kept r r' × Finished r i.task_id o.attempt_id r')
        (λ _ r'. Kept r r' × Finished r i.task_id o.attempt_id r') _
        (λ e r' (k, h). (k, Unrecovered-of_Unfinished e r' h)) (λ _ _ h. h)
        (finish_lem i.task_id o.attempt_id r sound))

classify_unknown :
    (w : WorkflowGraph) (j : DurableJournal) (op : OperationId)
    → get op j.intents ≡ none
    → classify_recovery w j op ≡ err (unknown_operation op)
unfolding classify_recovery Journal.intent
classify_unknown w j op e = rw (e, classify_recovery) refl

is_completion_iff :
    (a : RecoveryAction) → (is_completion a ≡ true) ↔ (a ≡ complete_without_reexecution)
is_completion_iff complete_without_reexecution = ((λ _. refl), λ _. refl)
is_completion_iff execute = ((λ h. cc), λ h. cc)
is_completion_iff retry_same_operation = ((λ h. cc), λ h. cc)
is_completion_iff reconcile = ((λ h. cc), λ h. cc)
is_completion_iff no_action = ((λ h. cc), λ h. cc)
is_completion_iff observe_failure = ((λ h. cc), λ h. cc)
is_completion_iff invariant_violation = ((λ h. cc), λ h. cc)

-- Recovery on a sound runtime returns, keeps it sound, and leaves journal and cancelled tasks as
-- they were, however it ends. It succeeds with the decision that `classify_recovery` gives: if that
-- is to complete without executing again, the task was open to completion, the workflow differs by
-- its completion alone, and the announcement is the last pending item of the lifecycle stream; else
-- nothing changes. It fails for an operation without an intent, changing nothing, and otherwise only
-- on such a completion: where the workflow refuses it for the reason that is named, changing
-- nothing, or where the task is completed but the stream is exhausted or its full buffer hands back
-- the announcement.
pub recover_lem :
    (r : Runtime) (op : OperationId)
    → Sound r
    → Concludes
        (λ e r'. Kept r r' × Unrecovered r op e r')
        (λ d r'. Kept r r' × Recovered r op d r')
        (recover op r)
unfolding recover
recover_lem r op sound = elim (Option-cases (get op r.journal.intents)) [
  | inl e ↦
      rw (classify_unknown r.workflow r.journal op e, recover) (Kept-refl r sound, (refl, e, refl))
  | inr (i, e) ↦
      let (d, p, g) = classify_recovery_lem r.workflow r.journal op i e in
      elim (Bool-cases (is_completion d.action)) [
        | inr n ↦
            let other : d.action ≢ complete_without_reexecution =
              λ q. let y = (is_completion_iff d.action).1 q in ground arith in
            rw (p, recover) (rw n (Kept-refl r sound, (refl, inl (other, refl))))
        | inl y ↦
            let same = (is_completion_iff d.action).0 y in
            let (_, fresh, known) = subst (Grounds r.workflow r.journal op i) same g in
            let (o, k) = state_known r.workflow r.journal op i succeeded known in
            let can : Completable r op d i o = record {
              decided = p;
              completion = same;
              intended = e;
              succeeds = known;
              known = k;
            } in
            rw (p, recover)
              (rw y (
                Concludes-onward (λ x r'. Kept r r' × Unrecovered r op x r')
                  (λ _ r'. Kept r r' × Finished r i.task_id o.attempt_id r')
                  (λ x r'.
                    Kept r r'
                    × ((◌≡◌ {A = Result JournalError RecoveryDecision} (ok d) (ok x))
                        × (((x.action ≢ complete_without_reexecution) × (r' ≡ r))
                            ⊎ ((i : EffectIntent) × (o : OutcomeRecord) × Completable r op x i o
                                × Finished r i.task_id o.attempt_id r'))))
                  (apply_success op r) (λ _ t. (t, ok d))
                  (apply_success-Concludes r op d i o can sound fresh)
                  (λ _ t (kept, f). (kept, (refl, inr (i, o, can, f))))))
      ]
]
