-- ===== src/Runtime/Durability/Follows.antt =====
-- What an accepted fact does to the run and its journal.
use graph_core.Base.{
  ◌≡◌, refl, sym, subst, inl, inr, List, [], ◌∷◌, none, some, Memᴰ, arith, Bool-cases,
}
use graph_core.Base.Order.{◌==◌, ==_iff}
use graph_core.Base.BTreeMap.{get, insert, get-insert}
use graph_core.Core.Ident.{ident_ord}
use graph_core.Recovery.Model.{
  OperationId, AttemptId, operation_ord, attempt_ord, EffectIntent, DispatchRecord, OutcomeRecord,
}
use graph_core.Recovery.Journal.{DurableJournal, attempts}
use graph_core.Recovery.Journal.Invariant.{IsValid, attempts-dispatch}
use graph_core.Recovery.Durable.Facts.{record_intent, record_dispatch, record_outcome}
use graph_core.Recovery.Durable.State.{DurableRunState}
use graph_core.Recovery.Durable.Agreement.{SameFacts}
use graph_core.Runtime.Durability.Commits.{Took}
use graph_core.Runtime.Durability.Persists.{
  with_intent, with_dispatch, Settled, seal-SameFacts, intent-SameFacts, dispatch-SameFacts,
  outcome-SameFacts,
}
use graph_core.Runtime.Durability.Sound.{DispatchedOnce, MayDispatch, Follows}

-- The journal of an operation without an intent has no attempt of it.
attempts_of_unknown :
    (j : DurableJournal) (op : OperationId)
    → IsValid j
    → get op j.intents ≡ none
    → attempts j op ≡ []
attempts_of_unknown j op v e = by_list (attempts j op) refl
  where
    by_list : (as_ : List AttemptId) → attempts j op ≡ as_ → attempts j op ≡ []
    by_list [] p = p
    by_list (a ∷ as_) p =
        let (d, at, same) = v.attempted op a (subst (Memᴰ a) (sym p) (Memᴰ.head refl)) in
        absurd (ground (arith, (v.dispatched a d at).1, same))

once-intent :
    (j : DurableJournal) (i : EffectIntent)
    → IsValid j
    → DispatchedOnce j
    → get i.operation_id j.intents ≡ none
    → DispatchedOnce (with_intent j i)
once-intent j i v once fresh op x there n = elim (Bool-cases (i.operation_id == op)) [
  | inl same ↦
      let unknown : get op j.intents ≡ none = ground (arith, ==_iff i.operation_id op) in
      rw (attempts_of_unknown j op v unknown) (omega arith)
  | inr other ↦ once op x (ground (arith, get-insert op i.operation_id i j.intents)) n
]

once-dispatch :
    (j : DurableJournal) (d : DispatchRecord)
    → DispatchedOnce j
    → MayDispatch j d.operation_id
    → DispatchedOnce (with_dispatch j d)
once-dispatch j d once may op x there n = elim (Bool-cases (d.operation_id == op)) [
  | inl same ↦
      let e = (==_iff d.operation_id op).0 same in
      let empty : attempts j d.operation_id ≡ [] = may x (rw e there) n in
      rw (attempts-dispatch j d op) (rw same (rw empty (omega arith)))
  | inr other ↦ rw (attempts-dispatch j d op) (rw other (once op x there n))
]

module _ (s s' : DurableRunState) (j k : DurableJournal) (h : SameFacts s j) (v : IsValid j)
    (v' : IsValid k) (once : DispatchedOnce j) where
  pub intent-Follows :
      (i : EffectIntent)
      → get i.operation_id j.intents ≡ none
      → k ≡ with_intent j i
      → Took s (record_intent i) s'
      → Follows s s' k
  intent-Follows i fresh e (inl (_, there)) = absurd (ground (arith, h.same_intents i.operation_id))
  intent-Follows i fresh e (inr (c, inl (there, _), _)) =
      absurd (ground (arith, h.same_intents i.operation_id))
  intent-Follows i fresh e (inr (c, inr (_, _, p), (request, revision, q))) = rw q (record {
    facts =
        rw e
          (seal-SameFacts c request revision (with_intent j i) (rw p (intent-SameFacts s j h i)));
    cancellations = rw p refl;
    valid = v';
    once = subst DispatchedOnce (sym e) (once-intent j i v once fresh);
  })

  pub dispatch-Follows :
      (d : DispatchRecord)
      → MayDispatch j d.operation_id
      → get d.attempt_id j.dispatches ≡ none
      → k ≡ with_dispatch j d
      → Took s (record_dispatch d) s'
      → Follows s s' k
  dispatch-Follows d may fresh e (inl (_, there)) =
      absurd (ground (arith, h.same_dispatches d.attempt_id))
  dispatch-Follows d may fresh e (inr (c, a, (request, revision, q))) = rw q (record {
    facts = rw e (
        seal-SameFacts c request revision (with_dispatch j d)
          (rw (a.changed) (dispatch-SameFacts s j h d)));
    cancellations = rw (a.changed) refl;
    valid = v';
    once = subst DispatchedOnce (sym e) (once-dispatch j d once may);
  })

  -- An outcome that is known already.
  same_outcome-Follows :
      (o e : OutcomeRecord)
      → get o.attempt_id j.outcomes ≡ some e
      → k ≡ j
      → Took s (record_outcome o) s'
      → Follows s s' k
  same_outcome-Follows o e there p (inl (q, _)) =
      rw q (record { facts = rw p h; cancellations = refl; valid = v'; once = rw p once })
  same_outcome-Follows o e there p (inr (c, a, (request, revision, q))) = elim a.changed [
    | inl (_, _, _, w) ↦ rw q (record {
      facts = rw p (seal-SameFacts c request revision j (rw w h));
      cancellations = rw w refl;
      valid = v';
      once = rw p once;
    })
    | inr (none_, _) ↦ absurd (ground (arith, h.same_outcomes o.attempt_id))
  ]

  pub outcome-Follows :
      (o : OutcomeRecord) → Settled j o k → Took s (record_outcome o) s' → Follows s s' k
  outcome-Follows o (inl (e, there, p)) took = same_outcome-Follows o e there p took
  outcome-Follows o (inr (fresh, p)) (inl (_, (e, there, _))) =
      absurd (ground (arith, h.same_outcomes o.attempt_id))
  outcome-Follows o (inr (fresh, p)) (inr (c, a, (request, revision, q))) = elim a.changed [
    | inl (_, there, _, _) ↦ absurd (ground (arith, h.same_outcomes o.attempt_id))
    | inr (_, w) ↦ rw q (record {
      facts = rw p (
          seal-SameFacts c request revision
            (record j { outcomes = insert o.attempt_id o j.outcomes })
            (rw w (outcome-SameFacts s j h o)));
      cancellations = rw w refl;
      valid = v';
      once = rw p once;
    })
  ]
