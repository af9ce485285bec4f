-- ===== src/Runtime/Durability/Capture.antt =====
-- How the capture of capability pins can end.
use graph_core.Base.{
  ◌≡◌, ◌↔◌, refl, ap, ◌∙◌, inl, inr, true, false, Memᴰ, arith, not, ◌||◌, List, [], ◌∷◌, Option,
  none, some, length, eqb, Bool-cases, Option-cases,
}
use graph_core.Base.Order.{◌==◌, ==_iff, ==_refl, list_ord, nat_ord}
use graph_core.Base.BTreeMap.{BTreeMap, get}
use graph_core.Core.Ident.{Text, Ident, ident_ord}
use graph_core.Recovery.Durable.Facts.{CapabilityReplayIdentity}
use graph_core.Capability.Entry.{CapabilityHandle, replay_identity}
use graph_core.Runtime.State.{
  Runtime, RuntimeError, CapabilityPin, missing_capability, capability_replay_mismatch,
}
use graph_core.Runtime.Pins.{
  same_identity, check_identity, capture_all, by_capability, any_differs, check_expected,
  required_of, capture_capability_pins,
}
use graph_core.Runtime.Start.{Context}
use mathlib.Core.List.Memᴰ
use graph_core.Runtime.Durability.Calm.{Returns}
use graph_core.Runtime.Durability.Refusals.{
  Required, Suits, AllPinned, Admits, CaptureRefused, Gives, Gives-bind, Gives-weaken,
  Returns-of_Gives,
}

check_identity-Gives :
    (task_id c : Ident) (x : Option Text) (h : CapabilityHandle) (context : Context)
    (required : Required)
    → Memᴰ (c, x) required
    → context c ≡ some h
    → (expected : Option (List CapabilityReplayIdentity))
    → Gives
        (CaptureRefused context required expected task_id)
        (λ _. Suits x h)
        (check_identity task_id c x h)
unfolding check_identity
check_identity-Gives task_id c none h context required at there expected = tt
check_identity-Gives task_id c (some x) h context required at there expected =
    elim (Bool-cases (x == replay_identity h)) [
      | inl e ↦ rw (e, check_identity) ((==_iff x (replay_identity h)).0 e)
      | inr e ↦
          rw (e, check_identity)
            (refl, inl (x, h, at, there, λ same. ground (arith, ==_iff x (replay_identity h))))
    ]

later_Refused :
    (context : Context) (required : Required) (head : Ident × Option Text) (task_id : Ident)
    (e : RuntimeError)
    → CaptureRefused context required none task_id e
    → CaptureRefused context (head ∷ required) none task_id e
later_Refused context required head task_id (missing_capability t c) (same, (x, at, there)) =
    (same, (x, Memᴰ.tail at, there))
later_Refused context required head task_id (capability_replay_mismatch t c)
      (same, inl (x, h, at, there, other)) =
    (same, inl (x, h, Memᴰ.tail at, there, other))
later_Refused context required head task_id (capability_replay_mismatch t c)
      (same, inr (pins, _, refuted)) =
    absurd (refuted tt)
later_Refused context required head task_id _ h = absurd h

capture_all-Gives :
    (context : Context) (task_id : Ident) (required : Required)
    → Gives
        (CaptureRefused context required none task_id)
        (AllPinned context required)
        (capture_all context task_id required)
unfolding capture_all
capture_all-Gives context task_id [] = tt
capture_all-Gives context task_id ((c, x) ∷ required) = elim (Option-cases (context c)) [
  | inl e ↦ rw (e, capture_all) (refl, (x, Memᴰ.head refl, e))
  | inr (h, e) ↦
      let all : Required = (c, x) ∷ required in
      let E = CaptureRefused context all none task_id in
      rw (e, capture_all)
        (Gives-bind E (λ _. Suits x h) (AllPinned context all) (check_identity task_id c x h) _
          (check_identity-Gives task_id c x h context all (Memᴰ.head refl) e none)
          (λ _ suits.
            Gives-bind E (AllPinned context required) (AllPinned context all)
              (capture_all context task_id required) _
              (Gives-weaken (CaptureRefused context required none task_id) E
                (AllPinned context required) (AllPinned context required)
                (capture_all context task_id required)
                (later_Refused context required (c, x) task_id) (λ _ p. p)
                (capture_all-Gives context task_id required))
              (λ pins pinned. ((h, e, refl, suits), pinned))))
]

identity_iff : (a b : CapabilityReplayIdentity) → (same_identity a b ≡ true) ↔ (a ≡ b)
identity_iff a b = (
  λ e.
      let c : a.capability_id ≡ b.capability_id =
        (==_iff a.capability_id b.capability_id).0 (ground arith) in
      let d : a.definition_identity ≡ b.definition_identity =
        (==_iff a.definition_identity b.definition_identity).0 (ground arith) in
      λ i. record { capability_id = c i; definition_identity = d i },
  λ e. rw e (ground (arith, ==_refl b.capability_id, ==_refl b.definition_identity)),
)

abbrev AllExpected : BTreeMap Ident CapabilityReplayIdentity → List CapabilityPin → Type 0
AllExpected expected pins =
    (p : CapabilityPin) → Memᴰ p pins → get p.capability_id expected ≡ some p.replay_identity

any_differs_iff :
    (expected : BTreeMap Ident CapabilityReplayIdentity) (pins : List CapabilityPin)
    → (any_differs expected pins ≡ false) ↔ AllExpected expected pins
unfolding any_differs
any_differs_iff expected [] = ((λ _ p m. absurd (Memᴰ.not-nil m)), λ _. refl)
any_differs_iff expected (q ∷ pins) = elim (Option-cases (get q.capability_id expected)) [
  | inl e ↦ rw (e, any_differs) ((λ h. cc), λ all. cc (all q (Memᴰ.head refl), e))
  | inr (i, e) ↦
      let ih = any_differs_iff expected pins in
      let same = identity_iff i q.replay_identity in
      rw (e, any_differs)
        (
          (λ h p m. elim (Memᴰ.cases_cons m) [
            | inl s ↦ rw s (e ∙ ap some (same.0 (ground arith)))
            | inr n ↦ ih.0 (ground arith) p n
          ]),
          λ all.
              let there = same.1 (cc (e, all q (Memᴰ.head refl))) in
              let rest = ih.1 (λ p m. all p (Memᴰ.tail m)) in ground (arith, there, rest),
        )
]

check_expected-Gives :
    (context : Context) (required : Required) (task_id : Ident) (pins : List CapabilityPin)
    (expected : Option (List CapabilityReplayIdentity))
    → AllPinned context required pins
    → Gives
        (CaptureRefused context required expected task_id)
        (λ ps. AllPinned context required ps × Admits expected ps)
        (check_expected task_id pins expected)
unfolding check_expected
check_expected-Gives context required task_id pins none pinned = (pinned, tt)
check_expected-Gives context required task_id pins (some identities) pinned =
    let found = by_capability identities in
    let all = any_differs_iff found pins in
    elim (Bool-cases (not (eqb (length found) (length pins)) || any_differs found pins)) [
      | inl e ↦
          rw (e, check_expected)
            (refl, inr (pins, pinned, λ (n, each). let same = all.1 each in ground arith))
      | inr e ↦ rw (e, check_expected) (pinned, (ground arith, all.0 (ground arith)))
    ]

expected_Refused :
    (context : Context) (required : Required) (task_id : Ident)
    (expected : Option (List CapabilityReplayIdentity)) (e : RuntimeError)
    → CaptureRefused context required none task_id e
    → CaptureRefused context required expected task_id e
expected_Refused context required task_id expected (missing_capability t c) h = h
expected_Refused context required task_id expected (capability_replay_mismatch t c)
      (same, inl changed) =
    (same, inl changed)
expected_Refused context required task_id expected (capability_replay_mismatch t c)
      (same, inr (pins, _, refuted)) =
    absurd (refuted tt)
expected_Refused context required task_id expected _ h = absurd h

pub capture-Gives :
    (task_id : Ident) (expected : Option (List CapabilityReplayIdentity)) (r : Runtime)
    → Gives
        (CaptureRefused r.context (required_of r task_id) expected task_id)
        (λ pins. AllPinned r.context (required_of r task_id) pins × Admits expected pins)
        (capture_capability_pins task_id expected r)
unfolding capture_capability_pins
capture-Gives task_id expected r =
    let required = required_of r task_id in
    let E = CaptureRefused r.context required expected task_id in
    Gives-bind E (AllPinned r.context required)
      (λ pins. AllPinned r.context required pins × Admits expected pins)
      (capture_all r.context task_id required) _
      (Gives-weaken (CaptureRefused r.context required none task_id) E
        (AllPinned r.context required) (AllPinned r.context required)
        (capture_all r.context task_id required)
        (expected_Refused r.context required task_id expected) (λ _ p. p)
        (capture_all-Gives r.context task_id required))
      (λ pins pinned. check_expected-Gives r.context required task_id pins expected pinned)

pub capture-Returns :
    (task_id : Ident) (expected : Option (List CapabilityReplayIdentity)) (r : Runtime)
    → Returns (capture_capability_pins task_id expected r)
capture-Returns task_id expected r =
    Returns-of_Gives (CaptureRefused r.context (required_of r task_id) expected task_id)
      (λ pins. AllPinned r.context (required_of r task_id) pins × Admits expected pins)
      (capture_capability_pins task_id expected r) (capture-Gives task_id expected r)
