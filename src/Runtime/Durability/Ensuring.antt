-- ===== src/Runtime/Durability/Ensuring.antt =====
-- `ensure_configured_effect`.
use graph_core.Base.{◌≡◌, refl, ap, inl, inr, Option, none, some, Option-cases, ◌⊎◌}
use graph_core.Base.BTreeMap.{get}
use graph_core.Core.Ident.{Ident, ident_ord}
use graph_core.Recovery.Model.{OperationId, operation_ord, EffectSemantics, EffectIntent}
use graph_core.Recovery.Journal.{
  DurableJournal, JournalError, intent, state, operation_for_task, known_outcome,
}
use graph_core.Recovery.Journal
use graph_core.Runtime.Config.{EffectSpec}
use graph_core.Runtime.State.{Runtime}
use graph_core.Runtime.Action.{pure}
use graph_core.Runtime.Commit.{record_effect_intent}
use graph_core.Runtime.Step.{configured_effect, record_configured, ensure_configured_effect}
use graph_core.Runtime.Durability.Sound.{Sound, Ends, Ends-onward, Ends-weaken, OnlyFacts}
use graph_core.Runtime.Durability.Effects.{record_effect_intent-Ends}
use graph_core.Runtime.Durability.Scheduling.{IsPlain, Known}

pub owned_intent :
    (r : Runtime) (sound : Sound r) (t : Ident) (op : OperationId)
    → Known r t op
    → (i : EffectIntent) × (get op r.journal.intents ≡ some i) × (i.task_id ≡ t)
unfolding operation_for_task
owned_intent r sound t op e = sound.valid.owned t op e

record_effect_intent-Owned :
    (r : Runtime) (sound : Sound r) (t : Ident) (op : OperationId) (x : EffectSemantics)
    → Ends
        (λ r'. r' ≡ r)
        (λ _ r'. Sound r' × (operation_for_task r'.journal t ≡ some op) × OnlyFacts r r')
        (record_effect_intent t op x r)
unfolding operation_for_task
record_effect_intent-Owned r sound t op x =
    let i : EffectIntent = record { task_id = t; operation_id = op; semantics = x } in
    Ends-weaken (λ r'. r' ≡ r) (λ r'. r' ≡ r)
      (λ _ r'. Sound r' × (get op r'.journal.intents ≡ some i) × OnlyFacts r r')
      (λ _ r'. Sound r' × (operation_for_task r'.journal t ≡ some op) × OnlyFacts r r')
      (record_effect_intent t op x r) (λ _ p. p)
      (λ _ r' (s, there, e). (s, (s.valid.owner op i there).1, e))
      (record_effect_intent-Ends r sound t op x)

-- The effect has an intent of the task, which was there before or is new.
abbrev pub Ensured : Runtime → Ident → Option (OperationId × EffectSemantics) → Runtime → Type 0
Ensured r t none m = IsPlain r t × (m ≡ r)
Ensured r t (some (op, _)) m =
    Sound m
    × (m.workflow ≡ r.workflow)
    × Known m t op
    × ((operation_for_task r.journal t ≡ none) ⊎ (m ≡ r))

-- No intent is recorded.
abbrev pub Unensured : Runtime → Ident → Runtime → Type 0
Unensured r t m = (operation_for_task r.journal t ≡ none) × (m ≡ r)

record_configured-Ends :
    (t : Ident) (r : Runtime) (o : Option EffectSpec)
    → Sound r
    → operation_for_task r.journal t ≡ none
    → configured_effect r t ≡ o
    → Ends (Unensured r t) (Ensured r t) (record_configured t o r)
unfolding record_configured
record_configured-Ends t r none sound e c = ((e, c), refl)
record_configured-Ends t r (some effect) sound e c =
    let op = effect.operation_id in
    let x = effect.semantics in
    Ends-onward (Unensured r t) (λ _. Ensured r t (some (op, x))) (Ensured r t)
      (record_effect_intent t op x r) (λ _. pure (some (op, x)))
      (Ends-weaken (λ r'. r' ≡ r) (Unensured r t)
        (λ _ r'. Sound r' × (operation_for_task r'.journal t ≡ some op) × OnlyFacts r r')
        (λ _. Ensured r t (some (op, x))) (record_effect_intent t op x r) (λ m p. (e, p))
        (λ _ m (s, there, p). (s, ap (λ (x : Runtime). x.workflow) p, there, inl e))
        (record_effect_intent-Owned r sound t op x))
      (λ _ m h. h)

pub ensure_configured_effect-Ends :
    (t : Ident) (r : Runtime)
    → Sound r
    → Ends (Unensured r t) (Ensured r t) (ensure_configured_effect t r)
unfolding ensure_configured_effect Journal.intent
ensure_configured_effect-Ends t r sound = elim (Option-cases (operation_for_task r.journal t)) [
  | inl e ↦
      rw (e, ensure_configured_effect)
        (record_configured-Ends t r (configured_effect r t) sound e refl)
  | inr (op, e) ↦
      let (i, there, _) = owned_intent r sound t op e in
      rw (e, ensure_configured_effect) (rw there (sound, refl, e, inr refl))
]
