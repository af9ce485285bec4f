-- ===== src/Base/Texts.antt =====
-- Text as code points: literals, and the decimal notation of `u64`.
use Prim.Native.Nat.{ℕ, zero, suc, ◌+◌, ◌/◌, ◌%◌}
use Prim.Native.Char.{code}
use Prim.Native.String.{String}
use mathlib.Core.Bool.{true, false}
use mathlib.Core.List.{List, [], ◌∷◌}
use graph_core.Base.Tests.{eqb}

abbrev pub codes : String → List ℕ
codes String.[] = []
codes (String.◌∷◌ c s) = code c ∷ codes s

-- The digits of `n` before `rest`. The fuel bounds their number.
unfoldable pub digits : ℕ → ℕ → List ℕ → List ℕ
digits zero n rest = rest
digits (suc fuel) n rest = elim (eqb (n / 10) 0) [
  | true ↦ (48 + n % 10) ∷ rest
  | false ↦ digits fuel (n / 10) ((48 + n % 10) ∷ rest)
]

-- `Display for u64`: no value has more than 20 digits.
unfoldable pub decimal : ℕ → List ℕ
decimal n = digits 20 n []
