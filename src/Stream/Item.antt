-- ===== src/Stream/Item.antt =====
-- `Sequence`, a `u64` counter that starts at 1, and `StreamItem`.
use graph_core.Base.{ℕ, ◌≡◌, ◌≤◌, Option, none, some}
use graph_core.Base.Words.{checked_add, u64_max}
use graph_core.Base.Results.{Result, expect}
use graph_core.Base.Order.{Ord, ord_by, nat_ord}
use graph_core.Core.Ident.{Ident}

pub record Sequence : Type 0 where
  pub value : ℕ

abbrev pub first : Sequence
first = record { value = 1 }

abbrev pub max : Sequence
max = record { value = u64_max }

unfoldable pub checked_next : Sequence → Option Sequence
checked_next s = elim (checked_add s.value 1) [ none ↦ none | some n ↦ some (record { value = n }) ]

unfoldable pub next : Sequence → Result ⊥ Sequence
next s = expect (checked_next s)

pub eq_of_value : (a b : Sequence) → a.value ≡ b.value → a ≡ b
eq_of_value a b e = λ i. record { value = e i }

instance unfoldable pub sequence_ord : Ord Sequence
sequence_ord = ord_by (λ s. s.value) eq_of_value

-- The values that `FIRST` and `next` give.
abbrev pub IsSequence : Sequence → Type 0
IsSequence s = (1 ≤ s.value) × (s.value ≤ u64_max)

pub record StreamItem {ℓ} (T : Type ℓ) : Type ℓ where
  pub stream_id : Ident
  pub sequence : Sequence
  pub payload : T

-- `StreamItem::map`.
unfoldable pub map_payload {ℓ κ} : {T : Type ℓ} {U : Type κ} → (T → U) → StreamItem T → StreamItem U
map_payload f item = record {
  stream_id = item.stream_id;
  sequence = item.sequence;
  payload = f item.payload;
}
