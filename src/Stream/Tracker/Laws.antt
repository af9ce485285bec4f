-- ===== src/Stream/Tracker/Laws.antt =====
-- What `observe` reports and remembers.
use graph_core.Base.{
  ℕ, ◌+◌, ◌≤◌, ◌<◌, ◌≡◌, refl, ◌≢◌, ◌⊎◌, inl, inr, Option, none, some, arith, Bool-cases,
  if◌then◌else◌,
}
use Prim.Native.Nat.{max}
use graph_core.Base.Results.{ok, err}
use graph_core.Base.Order.{◌==◌, ==_iff, nat_ord, ord_by}
use graph_core.Core.Ident.{ident_ord}
use graph_core.Stream.Item.{Sequence, StreamItem, IsSequence, checked_next, sequence_ord}
use graph_core.Stream.Tracker.{
  SequenceObservation, initial, in_order, gap, stale, SequenceTracker, stream_mismatch, classify,
  is_newer, observe,
}

-- The latest sequence as a number, 0 before the first item.
abbrev pub floor : Option Sequence → ℕ
floor none = 0
floor (some s) = s.value

abbrev pub IsLast : Option Sequence → Type 0
IsLast none = Unit
IsLast (some s) = IsSequence s

-- The next in line, a jump over what was expected, or nothing new.
abbrev pub Describes : Option Sequence → Sequence → SequenceObservation → Type 0
Describes last actual (initial a) = (a ≡ actual) × (last ≡ none) × (actual.value ≡ 1)
Describes last actual (in_order a) = (a ≡ actual) × (last ≢ none) × (actual.value ≡ floor last + 1)
Describes last actual (gap e a) =
    (a ≡ actual) × (e.value ≡ floor last + 1) × (floor last + 1 < actual.value)
Describes last actual (stale l a) = (a ≡ actual) × (last ≡ some l) × (actual.value ≤ l.value)

classify_lem :
    (last : Option Sequence) (actual : Sequence)
    → IsLast last
    → IsSequence actual
    → Describes last actual (classify last actual)
unfolding classify checked_next sequence_ord ord_by nat_ord
classify_lem none a h k = ground arith
classify_lem (some l) a h k = ground arith

floor-is_newer :
    (last : Option Sequence) (actual : Sequence)
    → floor (if is_newer last actual then some actual else last) ≡ max (floor last) actual.value
unfolding is_newer
floor-is_newer none a = ground arith
floor-is_newer (some l) a = ground arith

-- An item of another stream is refused and changes nothing. An item of the tracked stream is
-- described by how its sequence stands to the latest one (the next, a jump over the expected one,
-- or nothing new), and the latest is then the greater of the two.
pub observe_lem {ℓ} :
    {T : Type ℓ} (k : SequenceTracker) (item : StreamItem T)
    → IsLast k.last
    → IsSequence item.sequence
    → ((item.stream_id ≢ k.stream_id)
        × (observe k item ≡ (k, err (stream_mismatch k.stream_id item.stream_id))))
      ⊎ ((item.stream_id ≡ k.stream_id)
          × ((observe k item).1 ≡ ok (classify k.last item.sequence))
          × Describes k.last item.sequence (classify k.last item.sequence)
          × (floor (observe k item).0.last ≡ max (floor k.last) item.sequence.value)
          × IsLast (observe k item).0.last
          × ((observe k item).0.stream_id ≡ k.stream_id))
unfolding observe
observe_lem k item h v = elim (Bool-cases (item.stream_id == k.stream_id)) [
  | inr e ↦ inl ((λ p. ground (arith, ==_iff item.stream_id k.stream_id)), rw (e, observe) refl)
  | inl e ↦ inr (
      rw (e, observe)
        (
          (==_iff item.stream_id k.stream_id).0 e,
          refl,
          classify_lem k.last item.sequence h v,
          latest k.last refl,
          in_range k.last refl,
          ground arith,
        ))
]
  where
    latest :
        (last : Option Sequence)
        → k.last ≡ last
        → floor
            (if is_newer k.last item.sequence
              then record k { last = some item.sequence }
              else k).last
          ≡ max (floor k.last) item.sequence.value
    latest last e = ground (arith, floor-is_newer k.last item.sequence)

    in_range :
        (last : Option Sequence)
        → k.last ≡ last
        → IsLast
            (if is_newer k.last item.sequence
              then record k { last = some item.sequence }
              else k).last
    in_range last e = ground arith
