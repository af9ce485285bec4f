-- ===== src/Capability/Generation.antt =====
-- crates/capability-graph/src/definition.rs: `Generation`, the version of a published entry.
use graph_core.Base.{ℕ, ◌≡◌, Option, none, some}
use graph_core.Base.Words.{checked_add, u64_max}
use graph_core.Base.Results.{Result, expect}
use graph_core.Base.Order.{Ord, ord_by, nat_ord}

pub record Generation : Type 0 where
  pub value : ℕ

abbrev pub zero : Generation
zero = record { value = 0 }

abbrev pub first : Generation
first = record { value = 1 }

abbrev pub max : Generation
max = record { value = u64_max }

unfoldable pub checked_next : Generation → Option Generation
checked_next g = elim (checked_add g.value 1) [ none ↦ none | some n ↦ some (record { value = n }) ]

unfoldable pub next : Generation → Result ⊥ Generation
next g = expect (checked_next g)

pub eq_of_value : (a b : Generation) → a.value ≡ b.value → a ≡ b
eq_of_value a b e = λ i. record { value = e i }

instance unfoldable pub generation_ord : Ord Generation
generation_ord = ord_by (λ g. g.value) eq_of_value
