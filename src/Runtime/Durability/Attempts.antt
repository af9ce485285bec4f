-- ===== src/Runtime/Durability/Attempts.antt =====
-- A new attempt leaves the effect facts as they are.
use graph_core.Base.{
  ℕ, ◌≡◌, refl, sym, ap, subst, ◌∙◌, inl, inr, true, List, [], ◌∷◌, Option, none, some, Memᴰ,
  All-lookup, Option-cases,
}
use graph_core.Base.Results.{ok, err, panic, out_of_fuel}
use graph_core.Base.Words.{checked_add}
use graph_core.Base.Order.{list_ord, nat_ord}
use graph_core.Base.BTreeMap.{contains_key}
use graph_core.Core.Ident.{Text, Ident, ident_ord, is_whitespace}
use graph_core.Core.Laws.{IsBlank, new_iff}
use graph_core.Recovery.Model.{OperationId, AttemptId, attempt_id_new}
use graph_core.Recovery.Durable.Facts.{RunId, StoreRevision, AttemptAdmission, admit_attempt}
use graph_core.Recovery.Durable.State.{is_cancelled, dispatches}
use graph_core.Recovery.Durable.Agreement.{SameFacts}
use graph_core.Runtime.State.{
  CapabilityPin, TaskAttempt, task_started, Runtime, execution_backpressure,
}
use graph_core.Runtime.Action.{Outcome}
use graph_core.Runtime.Commit.{commit_durable}
use graph_core.Runtime.Events.{enqueue_execution, emit_execution, settle_started}
use graph_core.Runtime.Attempts.{
  attempt_text, admission_of, advance_attempt_number, announce_started, new_attempt, begin_attempt,
  or_begin,
}
use graph_core.Runtime.Durability.Commits.{Took, Committed, commit_durable-Committed}
use graph_core.Runtime.Durability.Persists.{seal-SameFacts}
use graph_core.Runtime.Durability.Sound.{Sound, Ends}
use graph_core.Runtime.Durability.Capture.{capture-Returns}
use graph_core.Runtime.Durability.Calm.{
  Calm, Returns, IsCalm, Calm-refl, bind-IsCalm, gets-IsCalm, enqueue-IsCalm, emit-IsCalm,
}
use mathlib.Core.List.Memᴰ

-- The text of an attempt holds a dash, so it is an identifier.
attempt_id_of_text :
    (run_id : RunId) (n : ℕ)
    → attempt_id_new (attempt_text run_id n)
      ≡ ok (record { id = record { value = attempt_text run_id n } })
unfolding attempt_id_new is_whitespace
attempt_id_of_text run_id n =
    let visible : ¬ IsBlank (attempt_text run_id n) = λ blank. cc (
      All-lookup (λ c. is_whitespace c ≡ true) (attempt_text run_id n) blank 45
        (Memᴰ.append_right run_id.id.value (Memᴰ.head refl))) in
    rw ((new_iff (attempt_text run_id n)).1 visible, attempt_id_new) refl

commit-Calm :
    (r : Runtime) (sound : Sound r) (o : Outcome StoreRevision) (a : AttemptAdmission)
    → Committed (admit_attempt a) r sound.run o
    → Ends (Calm r) (λ _. Calm r) o
unfolding is_cancelled dispatches
commit-Calm r sound (r', ok _) a (s', stored, took, e) =
    let journal : r'.journal ≡ r.journal = ap (λ (x : Runtime). x.journal) e in
    let cancelled : r'.cancelled ≡ r.cancelled = ap (λ (x : Runtime). x.cancelled) e in
    (
      record {
        run = s';
        stored = stored;
        facts = subst (SameFacts s') (sym journal) (same took);
        withdrawn = λ t.
            ap (contains_key t) cancelled
            ∙ (sound.withdrawn t ∙ sym (ap (contains_key t) (kept took)));
        keyed = rw (kept took) sound.keyed;
        valid = rw journal sound.valid;
        once = rw journal sound.once;
      },
      journal,
      ap (λ (x : Runtime). x.workflow) e,
      cancelled,
    )
  where
    same : Took sound.run (admit_attempt a) s' → SameFacts s' r.journal
    same (inl (p, _)) = rw p sound.facts
    same (inr (c, (_, _, p), (request, revision, q))) = rw q (
        seal-SameFacts c request revision r.journal (
          rw p (record {
            same_intents = sound.facts.same_intents;
            same_dispatches = sound.facts.same_dispatches;
            same_attempts = sound.facts.same_attempts;
            same_outcomes = sound.facts.same_outcomes;
          })))

    kept : Took sound.run (admit_attempt a) s' → s'.cancellations ≡ sound.run.cancellations
    kept (inl (p, _)) = rw p refl
    kept (inr (c, (_, _, p), (request, revision, q))) = rw q (rw p refl)
commit-Calm r sound (r', err _) a c = rw c (sound, refl, refl, refl)
commit-Calm r sound (r', panic) a c = c
commit-Calm r sound (r', out_of_fuel) a c = c

admit-IsCalm :
    (key : Text) (a : AttemptAdmission) → IsCalm (commit_durable key (admit_attempt a ∷ []))
admit-IsCalm key a r sound =
    commit-Calm r sound _ a
      (commit_durable-Committed key (admit_attempt a) r sound.run sound.stored)

advance-IsCalm : IsCalm advance_attempt_number
unfolding advance_attempt_number
advance-IsCalm r sound = elim (Option-cases (checked_add r.next_attempt_number 1)) [
  | inl e ↦ rw (e, advance_attempt_number) (Calm-refl r sound)
  | inr (n, e) ↦ rw (e, advance_attempt_number) (Calm-refl r sound)
]

settle_started-Calm :
    (r0 : Runtime) (attempt : TaskAttempt) (o : Outcome (Unit {0}))
    → Ends (Calm r0) (λ _. Calm r0) o
    → Ends (Calm r0) (λ _. Calm r0) (settle_started attempt o)
settle_started-Calm r0 attempt (r, ok _) c = c
settle_started-Calm r0 attempt (r, err (execution_backpressure item)) c = c
settle_started-Calm r0 attempt (r, err _) c = c
settle_started-Calm r0 attempt (r, panic) c = c
settle_started-Calm r0 attempt (r, out_of_fuel) c = c

announce-IsCalm : (attempt : TaskAttempt) → IsCalm (announce_started attempt)
unfolding announce_started
announce-IsCalm attempt =
    bind-IsCalm (λ r. emit_execution (task_started r.run_id attempt.task_id attempt.attempt_id) r)
      (λ item r. settle_started attempt (enqueue_execution item r))
      (emit-IsCalm (λ r. task_started r.run_id attempt.task_id attempt.attempt_id))
      (λ item r sound.
        settle_started-Calm r attempt (enqueue_execution item r) (enqueue-IsCalm item r sound))

new_attempt-Returns :
    (task_id : Ident) (op : Option OperationId) (pins : List CapabilityPin) (r : Runtime)
    → Returns (new_attempt task_id op pins r)
unfolding new_attempt
new_attempt-Returns task_id op pins r =
    rw (attempt_id_of_text r.run_id r.next_attempt_number, new_attempt) tt

pub begin_attempt-IsCalm :
    (task_id : Ident) (op : Option OperationId) → IsCalm (begin_attempt task_id op)
unfolding begin_attempt
begin_attempt-IsCalm task_id op =
    bind-IsCalm _ _ (gets-IsCalm _ _ (capture-Returns task_id none)) (λ pins.
      bind-IsCalm _ _ (gets-IsCalm _ _ (new_attempt-Returns task_id op pins)) (λ attempt.
        bind-IsCalm _ _ (admit-IsCalm _ (admission_of attempt)) (λ _.
          bind-IsCalm advance_attempt_number (λ _. announce_started attempt) advance-IsCalm
            (λ _. announce-IsCalm attempt))))

pub or_begin-IsCalm :
    (known : Option AttemptId) (task_id : Ident) (op : Option OperationId)
    → IsCalm (or_begin known task_id op)
or_begin-IsCalm (some attempt_id) task_id op r sound = Calm-refl r sound
or_begin-IsCalm none task_id op r sound = begin_attempt-IsCalm task_id op r sound
