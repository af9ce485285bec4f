-- ===== src/Recovery/Journal/Dispatch.antt =====
-- What `persist_dispatch` asks for, and what the journal knows of the effect afterwards.
use graph_core.Base.{
  ◌≡◌, refl, ◌↔◌, inl, inr, true, [], ◌∷◌, ◌++◌, none, last-concat, arith, Option-cases,
}
use graph_core.Base.Results.{ok}
use graph_core.Base.Order.{==_refl}
use graph_core.Base.BTreeMap.{get, insert, get-insert, contains_key}
use graph_core.Recovery.Model.{operation_ord, attempt_ord, DispatchRecord, outcome_unknown}
use graph_core.Recovery.Journal.{
  DurableJournal, persist_dispatch, attempts, last_attempt, latest_dispatch, known_outcome, state,
}
use graph_core.Recovery.Journal.Invariant.{IsValid}

-- The guards of `persist_dispatch`; none of them is about outcomes.
abbrev pub MayDispatch : DurableJournal → DispatchRecord → Type 0
MayDispatch j x =
    (contains_key x.operation_id j.intents ≡ true) × (get x.attempt_id j.dispatches ≡ none)

accepts_iff :
    (j : DurableJournal) (x : DispatchRecord)
    → ((k : DurableJournal) × (persist_dispatch j x ≡ ok k)) ↔ MayDispatch j x
unfolding persist_dispatch
accepts_iff j x = (
  λ (k, e). ground arith,
  λ (p, q). (
    record j {
      operation_attempts =
          insert x.operation_id (attempts j x.operation_id ++ x.attempt_id ∷ [])
            j.operation_attempts;
      dispatches = insert x.attempt_id x j.dispatches;
    },
    rw (p, q, persist_dispatch) refl,
  ),
)

unsettled :
    (j : DurableJournal) (x : DispatchRecord)
    → IsValid j
    → get x.attempt_id j.dispatches ≡ none
    → get x.attempt_id j.outcomes ≡ none
unsettled j x v e = elim (Option-cases (get x.attempt_id j.outcomes)) [
  | inl p ↦ p
  | inr (o, p) ↦ let (_, (d, q, _)) = v.settled x.attempt_id o p in absurd (cc)
]

state_after :
    (j k : DurableJournal) (x : DispatchRecord)
    → IsValid j
    → persist_dispatch j x ≡ ok k
    → state k x.operation_id ≡ outcome_unknown
unfolding persist_dispatch state known_outcome latest_dispatch last_attempt
state_after j k x v e =
    let (p, q) = (accepts_iff j x).0 (k, e) in
    ground (
      arith,
      p,
      q,
      unsettled j x v q,
      last-concat (attempts j x.operation_id) x.attempt_id,
      get-insert x.operation_id x.operation_id (attempts j x.operation_id ++ x.attempt_id ∷ [])
          j.operation_attempts,
      get-insert x.attempt_id x.attempt_id x j.dispatches,
      ==_refl x.operation_id,
      ==_refl x.attempt_id,
    )

-- On a journal with sound lineage a dispatch is accepted exactly if its operation has an intent and
-- its attempt is new, whether or not an outcome of the operation is known, and from then on the
-- effect's outcome is unknown.
pub persist_dispatch_lem :
    (j : DurableJournal) (x : DispatchRecord)
    → IsValid j
    → (((k : DurableJournal) × (persist_dispatch j x ≡ ok k)) ↔ MayDispatch j x)
      × ((k : DurableJournal)
          → persist_dispatch j x ≡ ok k
          → state k x.operation_id ≡ outcome_unknown)
persist_dispatch_lem j x v = (accepts_iff j x, λ k e. state_after j k x v e)
