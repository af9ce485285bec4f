-- ===== src/Core/Revision.antt =====
-- crates/core/src/lib.rs: `Revision`, a `u64` counter.
use graph_core.Base.{ℕ, ◌≡◌, Option, none, some}
use graph_core.Base.Words.{checked_add, u64_max}
use graph_core.Base.Results.{Result, expect}
use graph_core.Base.Order.{Ord, ord_by, nat_ord}

pub record Revision : Type 0 where
  pub value : ℕ

abbrev pub zero : Revision
zero = record { value = 0 }

abbrev pub max : Revision
max = record { value = u64_max }

unfoldable pub checked_next : Revision → Option Revision
checked_next r = elim (checked_add r.value 1) [ none ↦ none | some n ↦ some (record { value = n }) ]

unfoldable pub next : Revision → Result ⊥ Revision
next r = expect (checked_next r)

pub eq_of_value : (a b : Revision) → a.value ≡ b.value → a ≡ b
eq_of_value a b e = λ i. record { value = e i }

instance unfoldable pub revision_ord : Ord Revision
revision_ord = ord_by (λ r. r.value) eq_of_value
