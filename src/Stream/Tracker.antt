-- ===== src/Stream/Tracker.antt =====
-- `SequenceTracker`.
pub mod Laws
use graph_core.Base.{◌≡◌, Bool, true, not, Option, none, some, if◌then◌else◌, ltb}
use graph_core.Base.Results.{Result, ok, err}
use graph_core.Base.Order.{◌==◌}
use graph_core.Core.Ident.{Ident, ident_ord}
use graph_core.Stream.Item.{Sequence, StreamItem, first, checked_next, sequence_ord}

-- `DuplicateOrReordered` is `stale`, with the latest sequence first.
pub data SequenceObservation : Type 0 where
  initial : Sequence → SequenceObservation
  in_order : Sequence → SequenceObservation
  gap : Sequence → Sequence → SequenceObservation
  stale : Sequence → Sequence → SequenceObservation

pub data StreamError : Type 0 where
  stream_mismatch : Ident → Ident → StreamError

pub record SequenceTracker : Type 0 where
  pub stream_id : Ident
  pub last : Option Sequence

unfoldable pub new : Ident → SequenceTracker
new id = record { stream_id = id; last = none }

-- The `match` on the last sequence.
unfoldable pub classify : Option Sequence → Sequence → SequenceObservation
classify none actual = if actual == first then initial actual else gap first actual
classify (some last) actual = elim (checked_next last) [
  | some expected ↦
      if actual == expected
      then in_order actual
      else if ltb expected.value actual.value
      then gap expected actual
      else stale last actual
  | none ↦ stale last actual
]

-- `self.last.is_none_or(|last| item.sequence > last)`.
unfoldable pub is_newer : Option Sequence → Sequence → Bool
is_newer none actual = true
is_newer (some last) actual = ltb last.value actual.value

unfoldable pub observe {ℓ} :
    {T : Type ℓ}
    → SequenceTracker
    → StreamItem T
    → SequenceTracker × Result StreamError SequenceObservation
observe k item =
    if not (item.stream_id == k.stream_id)
    then (k, err (stream_mismatch k.stream_id item.stream_id))
    else (
      if is_newer k.last item.sequence then record k { last = some item.sequence } else k,
      ok (classify k.last item.sequence),
    )
