-- ===== src/Stream/Sequencer.antt =====
-- `StreamSequencer`.
use graph_core.Base.{Bool, true, false, none, some, if◌then◌else◌}
use graph_core.Base.Results.{Result, ok, err}
use graph_core.Core.Ident.{Ident}
use graph_core.Stream.Item.{Sequence, StreamItem, first, max, checked_next}

pub data SequenceError : Type 0 where
  exhausted_stream : Ident → Sequence → SequenceError

pub record StreamSequencer : Type 0 where
  pub stream_id : Ident
  pub next_sequence : Sequence
  pub exhausted : Bool

unfoldable pub new : Ident → StreamSequencer
new id = record { stream_id = id; next_sequence = first; exhausted = false }

-- The `match` on the next sequence.
unfoldable pub advance : StreamSequencer → StreamSequencer
advance s = elim (checked_next s.next_sequence) [
  | some n ↦ record s { next_sequence = n }
  | none ↦ record s { exhausted = true }
]

unfoldable pub emit {ℓ} :
    {T : Type ℓ} → StreamSequencer → T → StreamSequencer × Result SequenceError (StreamItem T)
emit s payload = if s.exhausted then (s, err (exhausted_stream s.stream_id max)) else (
  advance s,
  ok (record { stream_id = s.stream_id; sequence = s.next_sequence; payload = payload }),
)
