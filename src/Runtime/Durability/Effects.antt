-- ===== src/Runtime/Durability/Effects.antt =====
-- Intents, dispatches and outcomes keep the invariant.
use graph_core.Base.{◌≡◌, refl, inl, inr, ◌++◌, none, some, is_some, arith, Bool-cases}
use graph_core.Base.Results.{ok, err, panic, out_of_fuel}
use graph_core.Base.Texts.{codes}
use graph_core.Base.Order.{==_refl}
use graph_core.Base.BTreeMap.{get, get-insert}
use graph_core.Core.Ident.{Text, Ident, ident_ord}
use graph_core.Workflow.Topology.{task}
use graph_core.Workflow.Facts.{is_completed}
use graph_core.Recovery.Model.{
  OperationId, AttemptId, operation_ord, attempt_ord, EffectSemantics, EffectIntent, DispatchRecord,
  OutcomeRecord, KnownEffectOutcome,
}
use graph_core.Recovery.Journal.{
  DurableJournal, Update, persist_intent, persist_dispatch, persist_outcome,
}
use graph_core.Recovery.Journal.Invariant.{
  IsValid, Leaves, persist_intent-Leaves, persist_dispatch-Leaves, persist_outcome-Leaves,
}
use graph_core.Recovery.Durable.Facts.{record_intent, record_dispatch, record_outcome}
use graph_core.Runtime.State.{Runtime}
use graph_core.Runtime.Commit.{
  persist_fact, intent_key, record_effect_intent, record_effect_outcome,
}
use graph_core.Runtime.Durability.Persists.{
  Persisted, with_intent, with_dispatch, Settled, intent-Persisted, dispatch-Persisted,
  outcome-Persisted,
}
use graph_core.Runtime.Durability.Sound.{
  Sound, Ends, Ends-weaken, MayDispatch, OnlyFacts, persist_fact-Ends,
}
use graph_core.Runtime.Durability.Follows.{intent-Follows, dispatch-Follows, outcome-Follows}

-- What a fact that the journal accepts says of the new journal.
abbrev pub Accepts : Update → (DurableJournal → Type 0) → DurableJournal → Type 0
Accepts u Q k = (u ≡ ok k) × Q k × IsValid k

accepts :
    (u : Update) (Q : DurableJournal → Type 0)
    → Persisted Q u
    → Leaves u
    → Persisted (Accepts u Q) u
accepts (ok k) Q q v = (refl, q, v)
accepts (err _) Q q v = tt
accepts panic Q q v = q
accepts out_of_fuel Q q v = q

abbrev pub Adds : DurableJournal → EffectIntent → DurableJournal → Type 0
Adds j i k = (get i.operation_id j.intents ≡ none) × (k ≡ with_intent j i)

abbrev pub Dispatches : DurableJournal → DispatchRecord → DurableJournal → Type 0
Dispatches j d k = (get d.attempt_id j.dispatches ≡ none) × (k ≡ with_dispatch j d)

module _ (r : Runtime) (sound : Sound r) where
  pub persist_intent-Ends :
      (i : EffectIntent)
      → Ends
          (λ r'. r' ≡ r)
          (λ _ r'.
            Sound r'
            × Accepts (persist_intent r.journal i) (Adds r.journal i) r'.journal
            × OnlyFacts r r')
          (persist_fact (λ j. persist_intent j i) (intent_key i) (record_intent i) r)
  persist_intent-Ends i =
      persist_fact-Ends (λ j. persist_intent j i) (intent_key i) (record_intent i) r sound
        (Accepts (persist_intent r.journal i) (Adds r.journal i))
        (λ s' k (_, (fresh, e), v) took.
          intent-Follows sound.run s' r.journal k sound.facts sound.valid v sound.once i fresh e
            took)
        (accepts (persist_intent r.journal i) (Adds r.journal i) (intent-Persisted r.journal i)
          (persist_intent-Leaves r.journal i sound.valid))

  pub persist_dispatch-Ends :
      (key : Text) (d : DispatchRecord)
      → MayDispatch r.journal d.operation_id
      → Ends
          (λ r'. r' ≡ r)
          (λ _ r'.
            Sound r'
            × Accepts (persist_dispatch r.journal d) (Dispatches r.journal d) r'.journal
            × OnlyFacts r r')
          (persist_fact (λ j. persist_dispatch j d) key (record_dispatch d) r)
  persist_dispatch-Ends key d may =
      persist_fact-Ends (λ j. persist_dispatch j d) key (record_dispatch d) r sound
        (Accepts (persist_dispatch r.journal d) (Dispatches r.journal d))
        (λ s' k (_, (fresh, e), v) took.
          dispatch-Follows sound.run s' r.journal k sound.facts sound.valid v sound.once d may fresh
            e took)
        (accepts (persist_dispatch r.journal d) (Dispatches r.journal d)
          (dispatch-Persisted r.journal d) (persist_dispatch-Leaves r.journal d sound.valid))

  pub record_effect_outcome-Ends :
      (op : OperationId) (a : AttemptId) (x : KnownEffectOutcome)
      → Ends (λ r'. r' ≡ r) (λ _ r'. Sound r' × OnlyFacts r r') (record_effect_outcome op a x r)
  unfolding record_effect_outcome
  record_effect_outcome-Ends op a x =
      let o : OutcomeRecord = record { operation_id = op; attempt_id = a; outcome = x } in
      let Q = Accepts (persist_outcome r.journal o) (Settled r.journal o) in
      Ends-weaken (λ r'. r' ≡ r) (λ r'. r' ≡ r) (λ _ r'. Sound r' × Q r'.journal × OnlyFacts r r')
        (λ _ r'. Sound r' × OnlyFacts r r') (record_effect_outcome op a x r) (λ r' e. e)
        (λ _ r' (s, _, e). (s, e))
        (persist_fact-Ends (λ j. persist_outcome j o) (codes "outcome:" ++ a.id.value)
          (record_outcome o) r sound Q
          (λ s' k (_, settled, v) took.
            outcome-Follows sound.run s' r.journal k sound.facts sound.valid v sound.once o settled
              took)
          (accepts (persist_outcome r.journal o) (Settled r.journal o)
            (outcome-Persisted r.journal o) (persist_outcome-Leaves r.journal o sound.valid)))

  -- An intent is recorded, or nothing happens.
  pub record_effect_intent-Ends :
      (task_id : Ident) (op : OperationId) (x : EffectSemantics)
      → let i : EffectIntent = record { task_id = task_id; operation_id = op; semantics = x } in
        Ends
          (λ r'. r' ≡ r)
          (λ _ r'. Sound r' × (get op r'.journal.intents ≡ some i) × OnlyFacts r r')
          (record_effect_intent task_id op x r)
  unfolding record_effect_intent
  record_effect_intent-Ends task_id op x =
      let i : EffectIntent = record { task_id = task_id; operation_id = op; semantics = x } in
      let Q = Accepts (persist_intent r.journal i) (Adds r.journal i) in
      elim (Bool-cases (is_some (task r.workflow.topology task_id))) [
        | inr e ↦ rw (e, record_effect_intent) refl
        | inl e ↦ elim (Bool-cases (is_completed r.workflow.facts task_id)) [
          | inl k ↦ rw (e, record_effect_intent) (rw k refl)
          | inr k ↦
              rw (e, record_effect_intent)
                (rw k (
                  Ends-weaken (λ r'. r' ≡ r) (λ r'. r' ≡ r)
                    (λ _ r'. Sound r' × Q r'.journal × OnlyFacts r r')
                    (λ _ r'. Sound r' × (get op r'.journal.intents ≡ some i) × OnlyFacts r r')
                    (persist_fact (λ j. persist_intent j i) (intent_key i) (record_intent i) r)
                    (λ r' p. p)
                    (λ _ r' (s, (_, (_, p), _), q).
                      (s, ground (arith, p, get-insert op op i r.journal.intents, ==_refl op), q))
                    (persist_intent-Ends i)))
        ]
      ]
