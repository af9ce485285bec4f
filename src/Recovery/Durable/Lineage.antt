-- ===== src/Recovery/Durable/Lineage.antt =====
-- The lineage of a run's facts: maps agree with histories, and every fact has the one it rests on.
pub mod Kept
use graph_core.Base.{
  ◌≡◌, refl, sym, ap, ◌∙◌, subst, ◌⊎◌, inl, inr, Bool, true, false, List, [], ◌∷◌, ◌++◌, Option,
  none, some, is_some, All, All-append, arith, Bool-cases, Option-cases, if◌then◌else◌,
}
use graph_core.Base.Order.{◌==◌, ==_iff}
use graph_core.Base.BTreeMap.{get, insert, get-insert, values}
use graph_core.Base.Lookup.{
  find_by, HasDistinct, find_by-concat, HasDistinct-concat, key-find_by, All-find_by,
  find_by-values-insert, HasDistinct-values-insert,
}
use graph_core.Core.Ident.{Ident, ident_ord}
use graph_core.Recovery.Model.{
  OperationId, AttemptId, operation_ord, attempt_ord, EffectIntent, DispatchRecord, OutcomeRecord,
}
use graph_core.Recovery.Durable.Facts.{
  RunId, DurableMutation, admit_attempt, record_intent, record_cancellation, record_dispatch,
  record_outcome,
}
use graph_core.Recovery.Durable.State.{DurableRunState}
use graph_core.Recovery.Durable.State
use graph_core.Recovery.Durable.Accepted.{
  Accepted, IntentAccepted, DispatchAccepted, OutcomeAccepted,
}
use graph_core.Recovery.Durable.Runs.{IsKept}

abbrev pub operation_of : EffectIntent → OperationId
operation_of i = i.operation_id

abbrev pub task_of : EffectIntent → Ident
task_of i = i.task_id

abbrev pub dispatch_attempt : DispatchRecord → AttemptId
dispatch_attempt d = d.attempt_id

abbrev pub outcome_attempt : OutcomeRecord → AttemptId
outcome_attempt o = o.attempt_id

abbrev pub operation_of_task : Option EffectIntent → Option OperationId
operation_of_task none = none
operation_of_task (some i) = some i.operation_id

pub record IntentLineage (s : DurableRunState) : Type 0 where
  pub found : (op : OperationId) → get op s.intents ≡ find_by operation_of op (values s.intents)
  pub owned :
      (task : Ident)
      → get task s.task_operations ≡ operation_of_task (find_by task_of task (values s.intents))
  pub operations : HasDistinct operation_of (values s.intents)
  pub tasks : HasDistinct task_of (values s.intents)

abbrev pub HasIntent : DurableRunState → DispatchRecord → Type 0
HasIntent s d = is_some (get d.operation_id s.intents) ≡ true

pub record DispatchLineage (s : DurableRunState) : Type 0 where
  pub found : (a : AttemptId) → get a s.dispatches ≡ find_by dispatch_attempt a s.dispatch_history
  pub attempts : HasDistinct dispatch_attempt s.dispatch_history
  pub intended : All (HasIntent s) s.dispatch_history

pub record HasDispatch (s : DurableRunState) (o : OutcomeRecord) : Type 0 where
  pub dispatch : DispatchRecord
  pub dispatched : get o.attempt_id s.dispatches ≡ some dispatch
  pub operation : dispatch.operation_id ≡ o.operation_id

pub record OutcomeLineage (s : DurableRunState) : Type 0 where
  pub found : (a : AttemptId) → get a s.outcomes ≡ find_by outcome_attempt a s.outcome_history
  pub attempts : HasDistinct outcome_attempt s.outcome_history
  pub dispatched : All (HasDispatch s) s.outcome_history

pub record Lineage (s : DurableRunState) : Type 0 where
  pub intents : IntentLineage s
  pub dispatches : DispatchLineage s
  pub outcomes : OutcomeLineage s

pub All-map {ℓ κ μ} :
    {A : Type ℓ} (P : A → Type κ) (Q : A → Type μ) (xs : List A)
    → ((a : A) → P a → Q a)
    → All P xs
    → All Q xs
All-map P Q [] f h = tt
All-map P Q (x ∷ xs) f (p, h) = (f x p, All-map P Q xs f h)

pub new-Lineage : (run : RunId) → Lineage (State.new run)
unfolding get find_by
new-Lineage run = record {
  intents = record { found = λ op. refl; owned = λ t. refl; operations = tt; tasks = tt };
  dispatches = record { found = λ a. refl; attempts = tt; intended = tt };
  outcomes = record { found = λ a. refl; attempts = tt; dispatched = tt };
}
