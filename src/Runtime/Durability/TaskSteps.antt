-- ===== src/Runtime/Durability/TaskSteps.antt =====
-- The step of one task: what the state of its effect calls for.
use graph_core.Base.{◌≡◌, refl, subst, ◌∙◌, inl, inr, Option, none, some, ◌⊎◌}
use graph_core.Core.Ident.{Ident, ident_ord}
use graph_core.Workflow.Graph.Completion.{MayComplete}
use graph_core.Recovery.Model.{
  OperationId, operation_ord, EffectSemantics, succeeded, failed, RecoveredEffectState, prepared,
  outcome_unknown, outcome_known, not_prepared,
}
use graph_core.Recovery.Journal.{state, operation_for_task}
use graph_core.Recovery.Decision.Safety.{state_known, classify_recovery_lem}
use graph_core.Runtime.State.{StepResult, effect_pending, Runtime, RuntimeError}
use graph_core.Runtime.Action.{pure}
use graph_core.Runtime.Attempts.{attempt_for_task, pending_attempt, or_begin}
use graph_core.Runtime.Step.{
  ensure_configured_effect, finish_task, step_plain, step_effect, step_with, step_task,
}
use graph_core.Runtime.Durability.Sound.{Sound}
use graph_core.Runtime.Durability.Calm.{Calm}
use graph_core.Runtime.Durability.Attempts.{or_begin-IsCalm}
use graph_core.Runtime.Durability.Dispatch.{not_prepared_of_unknown}
use graph_core.Runtime.Durability.Endings.{
  Concludes, Concludes-onward, Concludes-weaken, Concludes-of_Ends,
}
use graph_core.Runtime.Durability.Completing.{Done, Missed, finish_task-Concludes}
use graph_core.Runtime.Durability.Scheduling.{IsPlain, Known, TaskStepped, TaskFailed}
use graph_core.Runtime.Durability.Ensuring.{
  owned_intent, Ensured, Unensured, ensure_configured_effect-Ends,
}

module _ (r : Runtime) (t : Ident) (may : MayComplete r.workflow t) where
  abbrev pub Fails : RuntimeError → Runtime → Type 0
  Fails e r' = Sound r' × TaskFailed r t e r'

  abbrev pub Succeeds : StepResult → Runtime → Type 0
  Succeeds x r' = Sound r' × TaskStepped r t x r'

  Fails-of_Missed : (e : RuntimeError) (r' : Runtime) → Missed r.workflow t e r' → Fails e r'
  Fails-of_Missed e r' (s, done, unheard) = (s, inr (may, done, unheard))

  step_plain-Concludes : Sound r → IsPlain r t → Concludes Fails Succeeds (step_plain t r)
  unfolding step_plain
  step_plain-Concludes sound plain =
      let begun = or_begin (attempt_for_task r t none) t none in
      Concludes-onward Fails (λ _. Calm r) Succeeds (begun r) (finish_task t)
        (Concludes-of_Ends (Calm r) Fails (λ _. Calm r) (λ _. Calm r) (begun r)
          (λ e m (s, _, same, _). (s, inl (same, inl plain.0))) (λ _ _ h. h)
          (or_begin-IsCalm (attempt_for_task r t none) t none r sound))
        (λ a m (s, _, same, _).
          Concludes-weaken (Missed r.workflow t) Fails (Done r.workflow m t a) Succeeds
            (finish_task t a m) Fails-of_Missed
            (λ x r' (k, e, done, heard). rw e (k.sound, (refl, may, done, heard, inl plain)))
            (finish_task-Concludes t a m r.workflow same s may))

  module _ (m : Runtime) (op : OperationId) (sound : Sound m) (same : m.workflow ≡ r.workflow)
      (known : Known m t op) where
    step_prepared :
        (operation_for_task r.journal t ≡ none) ⊎ (m ≡ r)
        → state m.journal op ≡ prepared
        → Concludes Fails Succeeds (step_effect t op prepared m)
    unfolding step_effect
    step_prepared origin e =
        let begun = or_begin (pending_attempt m t op) t (some op) in
        let before : (operation_for_task r.journal t ≡ none)
            ⊎ ((op : OperationId) × Known r t op × (state r.journal op ≡ prepared)) =
          elim origin [
            | inl n ↦ inl n
            | inr p ↦ inr (
              op,
              subst (λ x. Known x t op) p known,
              subst (λ (x : Runtime). state x.journal op ≡ prepared) p e,
            )
          ] in
        Concludes-onward Fails (λ _. Calm m) Succeeds (begun m)
          (λ attempt_id. pure (effect_pending t attempt_id op))
          (Concludes-of_Ends (Calm m) Fails (λ _. Calm m) (λ _. Calm m) (begun m)
            (λ _ r' (s, _, w, _). (s, inl (w ∙ same, before))) (λ _ _ h. h)
            (or_begin-IsCalm (pending_attempt m t op) t (some op) m sound))
          (λ a r' (s, j, w, _). (s, (refl, w ∙ same, rw j known, rw j e)))

    step_unknown :
        state m.journal op ≡ outcome_unknown
        → Concludes Fails Succeeds (step_effect t op outcome_unknown m)
    unfolding step_effect
    step_unknown e =
        let (i, there, _) = owned_intent m sound t op known in
        let (d, p, _) = classify_recovery_lem m.workflow m.journal op i there in
        rw (p, step_effect) (sound, (refl, same, known, inl (e, (d, p, refl))))

    step_succeeded :
        state m.journal op ≡ outcome_known succeeded
        → Concludes Fails Succeeds (step_effect t op (outcome_known succeeded) m)
    unfolding step_effect
    step_succeeded e =
        let (i, _, _) = owned_intent m sound t op known in
        let (o, k) = state_known m.workflow m.journal op i succeeded e in
        let a = o.attempt_id in
        rw (k, step_effect)
          (Concludes-weaken (Missed r.workflow t) Fails (Done r.workflow m t a) Succeeds
            (finish_task t a m) Fails-of_Missed
            (λ x r' (k, q, done, heard). rw q (
              k.sound,
              (refl, may, done, heard, inr (op, rw (k.same_journal) known, rw (k.same_journal) e)),
            ))
            (finish_task-Concludes t a m r.workflow same sound may))

    step_effect-Concludes :
        (operation_for_task r.journal t ≡ none) ⊎ (m ≡ r)
        → (x : RecoveredEffectState) → state m.journal op ≡ x
        → Concludes Fails Succeeds (step_effect t op x m)
    unfolding step_effect
    step_effect-Concludes origin prepared e = step_prepared origin e
    step_effect-Concludes origin outcome_unknown e = step_unknown e
    step_effect-Concludes origin (outcome_known succeeded) e = step_succeeded e
    step_effect-Concludes origin (outcome_known failed) e =
        (sound, (refl, same, known, inr (e, refl)))
    step_effect-Concludes origin not_prepared e =
        let (i, there, _) = owned_intent m sound t op known in
        absurd (not_prepared_of_unknown m.journal op i there e)

  step_with-Concludes :
      (o : Option (OperationId × EffectSemantics)) (m : Runtime)
      → Sound r
      → Ensured r t o m
      → Concludes Fails Succeeds (step_with t o m)
  unfolding step_with
  step_with-Concludes none m sound (plain, e) = rw e (step_plain-Concludes sound plain)
  step_with-Concludes (some (op, _)) m sound (s, same, known, origin) =
      step_effect-Concludes m op s same known origin (state m.journal op) refl

  pub step_task-Concludes : Sound r → Concludes Fails Succeeds (step_task t r)
  unfolding step_task
  step_task-Concludes sound =
      Concludes-onward Fails (Ensured r t) Succeeds (ensure_configured_effect t r) (step_with t)
        (Concludes-of_Ends (Unensured r t) Fails (Ensured r t) (Ensured r t)
          (ensure_configured_effect t r) (λ e m (n, p). rw p (sound, inl (refl, inl n)))
          (λ _ _ h. h) (ensure_configured_effect-Ends t r sound))
        (λ o m. step_with-Concludes o m sound)
