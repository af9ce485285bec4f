-- ===== src/Runtime/Durability/Dispatch.antt =====
-- `dispatch_effect`: when it dispatches, and what it leaves as it is when it does not.
use graph_core.Base.{
  ◌≡◌, ◌≢◌, refl, sym, ap, subst, ◌∙◌, ◌⊎◌, inl, inr, false, List, [], ◌∷◌, ◌++◌, none, some, Memᴰ,
  arith, Bool-cases, Option-cases,
}
use graph_core.Base.Results.{ok}
use graph_core.Base.Texts.{codes}
use graph_core.Base.Order.{==_refl}
use graph_core.Base.BTreeMap.{get, contains_key, get-insert}
use graph_core.Core.Ident.{ident_ord}
use graph_core.Recovery.Model.{
  OperationId, AttemptId, operation_ord, attempt_ord, idempotent, non_idempotent, EffectSemantics,
  EffectIntent, DispatchRecord, RecoveredEffectState, prepared, outcome_unknown, outcome_known,
  not_prepared,
}
use graph_core.Recovery.Journal.{
  DurableJournal, attempts, intent, state, persist_dispatch, known_outcome, latest_dispatch,
}
use graph_core.Recovery.Journal
use graph_core.Recovery.Journal.Invariant.{IsValid}
use graph_core.Recovery.Journal.Dispatch.{persist_dispatch_lem}
use graph_core.Recovery.Decision.Safety.{latest_dispatch_of_dispatched, not-prepared_of_dispatch}
use graph_core.Runtime.State.{Runtime}
use graph_core.Runtime.Attempts.{pending_attempt, or_begin, begin_attempt}
use graph_core.Runtime.Effects.{
  choose_attempt, record_effect_dispatch, dispatch_intent, dispatch_effect,
}
use graph_core.Runtime.Durability.Sound.{
  Sound, Ends, Ends-onward, Ends-weaken, MayDispatch, OnlyFacts,
}
use graph_core.Runtime.Durability.Calm.{Calm, Calm-refl}
use graph_core.Runtime.Durability.Attempts.{begin_attempt-IsCalm, or_begin-IsCalm}
use graph_core.Runtime.Durability.Effects.{Accepts, Dispatches, persist_dispatch-Ends}

no_attempt_of_prepared :
    (j : DurableJournal) (op : OperationId) → IsValid j → state j op ≡ prepared → attempts j op ≡ []
no_attempt_of_prepared j op v e = by_list (attempts j op) refl
  where
    by_list : (as_ : List AttemptId) → attempts j op ≡ as_ → attempts j op ≡ []
    by_list [] p = p
    by_list (a ∷ as_) p =
        let (d, at, same) = v.attempted op a (subst (Memᴰ a) (sym p) (Memᴰ.head refl)) in
        let (y, latest) = latest_dispatch_of_dispatched j a d v at in
        absurd (
          not-prepared_of_dispatch j op y (subst (λ o. latest_dispatch j o ≡ some y) same latest) e)

pub not_prepared_of_unknown :
    (j : DurableJournal) (op : OperationId) (i : EffectIntent)
    → get op j.intents ≡ some i
    → state j op ≢ not_prepared
unfolding state
not_prepared_of_unknown j op i e h = ground arith

-- The dispatches that the runtime makes: of an effect that is prepared, or whose outcome is unknown
-- and that may be repeated, and of a task that is not cancelled.
pub record MakesDispatch (r : Runtime) (op : OperationId) : Type 0 where
  pub intent : EffectIntent
  pub intended : get op r.journal.intents ≡ some intent
  pub not_cancelled : contains_key intent.task_id r.cancelled ≡ false
  pub allowed :
      (state r.journal op ≡ prepared)
      ⊎ ((state r.journal op ≡ outcome_unknown) × (intent.semantics ≡ idempotent))

may_dispatch :
    (r : Runtime) (op : OperationId) → Sound r → MakesDispatch r op → MayDispatch r.journal op
may_dispatch r op sound m i there n = elim m.allowed [
  | inl p ↦ no_attempt_of_prepared r.journal op sound.valid p
  | inr (_, repeatable) ↦ absurd (ground (arith, m.intended))
]

module _ (r : Runtime) (op : OperationId) (i : EffectIntent) (sound : Sound r)
    (intended : get op r.journal.intents ≡ some i)
    (open_ : contains_key i.task_id r.cancelled ≡ false) where
  choose_attempt-Ends :
      (s : RecoveredEffectState)
      → state r.journal op ≡ s
      → Ends (Calm r) (λ _ r'. Calm r r' × MakesDispatch r op) (choose_attempt i op s r)
  unfolding choose_attempt
  choose_attempt-Ends prepared e =
      Ends-weaken (Calm r) (Calm r) (λ _. Calm r) (λ _ r'. Calm r r' × MakesDispatch r op)
        (or_begin (pending_attempt r i.task_id op) i.task_id (some op) r) (λ r' c. c)
        (λ _ r' c.
          (c, record { intent = i; intended = intended; not_cancelled = open_; allowed = inl e }))
        (or_begin-IsCalm (pending_attempt r i.task_id op) i.task_id (some op) r sound)
  choose_attempt-Ends outcome_unknown e = by_semantics i.semantics refl
    where
      by_semantics :
          (x : EffectSemantics)
          → i.semantics ≡ x
          → Ends
              (Calm r)
              (λ _ r'. Calm r r' × MakesDispatch r op)
              (choose_attempt i op outcome_unknown r)
      by_semantics non_idempotent p = rw (p, choose_attempt) (Calm-refl r sound)
      by_semantics idempotent p =
          rw (p, choose_attempt)
            (Ends-weaken (Calm r) (Calm r) (λ _. Calm r) (λ _ r'. Calm r r' × MakesDispatch r op)
              (begin_attempt i.task_id (some op) r) (λ r' c. c)
              (λ _ r' c. (
                c,
                record {
                  intent = i;
                  intended = intended;
                  not_cancelled = open_;
                  allowed = inr (e, p);
                },
              ))
              (begin_attempt-IsCalm i.task_id (some op) r sound))
  choose_attempt-Ends (outcome_known x) e = Calm-refl r sound
  choose_attempt-Ends not_prepared e = absurd (not_prepared_of_unknown r.journal op i intended e)

-- After the dispatch the attempt is on record and the outcome is unknown.
pub record Dispatched (r : Runtime) (op : OperationId) (a : AttemptId) (r' : Runtime) : Type 0 where
  pub made : MakesDispatch r op
  pub sound : Sound r'
  pub dispatched : get a r'.journal.dispatches ≡ some (record { operation_id = op; attempt_id = a })
  pub new_attempt : get a r.journal.dispatches ≡ none
  pub pending : state r'.journal op ≡ outcome_unknown
  pub same_workflow : r'.workflow ≡ r.workflow
  pub same_cancelled : r'.cancelled ≡ r.cancelled

record_dispatch-Ends :
    (r0 r : Runtime) (op : OperationId) (a : AttemptId)
    → MakesDispatch r0 op
    → Sound r0
    → Calm r0 r
    → Ends (Calm r0) (Dispatched r0 op) (record_effect_dispatch op a r)
unfolding record_effect_dispatch
record_dispatch-Ends r0 r op a made sound0 (sound, j, w, c) =
    let d : DispatchRecord = record { operation_id = op; attempt_id = a } in
    let may : MayDispatch r.journal op =
      subst (λ x. MayDispatch x op) (sym j) (may_dispatch r0 op sound0 made) in
    Ends-onward (Calm r0) (λ _. Dispatched r0 op a) (Dispatched r0 op) _ (λ _ t. (t, ok a))
      (Ends-weaken (λ r'. r' ≡ r) (Calm r0)
        (λ _ r'.
          Sound r'
          × Accepts (persist_dispatch r.journal d) (Dispatches r.journal d) r'.journal
          × OnlyFacts r r')
        (λ _. Dispatched r0 op a) _ (λ r' e. rw e (sound, j, w, c))
        (λ _ r' (s, (accepted, (fresh, p), _), q). record {
          made = made;
          sound = s;
          dispatched = ground (arith, p, get-insert a a d r.journal.dispatches, ==_refl a);
          new_attempt = ground (arith, j, fresh);
          pending = (persist_dispatch_lem r.journal d sound.valid).1 r'.journal accepted;
          same_workflow = ap (λ (x : Runtime). x.workflow) q ∙ w;
          same_cancelled = ap (λ (x : Runtime). x.cancelled) q ∙ c;
        })
        (persist_dispatch-Ends r sound (codes "dispatch:" ++ a.id.value) d may))
      (λ _ t h. h)

-- A dispatch returns. It succeeds only for an effect with an intent that is prepared, or whose
-- outcome is unknown and that may be repeated, and whose task is not cancelled; then the attempt is
-- new and on record and the outcome is unknown. An error leaves journal, workflow and cancelled
-- tasks as they were. Either way the invariant holds.
pub dispatch_effect_lem :
    (r : Runtime) (op : OperationId)
    → Sound r
    → Ends (Calm r) (Dispatched r op) (dispatch_effect op r)
unfolding dispatch_effect dispatch_intent Journal.intent
dispatch_effect_lem r op sound = elim (Option-cases (get op r.journal.intents)) [
  | inl e ↦ rw (e, dispatch_effect) (Calm-refl r sound)
  | inr (i, e) ↦ elim (Bool-cases (contains_key i.task_id r.cancelled)) [
    | inl c ↦ rw (e, dispatch_effect) (rw c (Calm-refl r sound))
    | inr c ↦
        rw (e, dispatch_effect)
          (rw c (
            Ends-onward (Calm r) (λ _ r'. Calm r r' × MakesDispatch r op) (Dispatched r op)
              (choose_attempt i op (state r.journal op) r) (record_effect_dispatch op)
              (choose_attempt-Ends r op i sound e c (state r.journal op) refl)
              (λ a r' (calm, made). record_dispatch-Ends r r' op a made sound calm)))
  ]
]
