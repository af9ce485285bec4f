-- ===== src/Base/Results.antt =====
-- Rust's `Result`, with the two ways in which a call returns nothing: a panic (a failed `expect`)
-- and, for a model that recurs on fuel, fuel that ran out. `do` blocks read as chains of `?`.
use mathlib.Core.Bool.{Bool, true, false}
use mathlib.Core.Option.{Option, none, some}

pub data Result {ℓ κ} (E : Type ℓ) (A : Type κ) : Type (ℓ ⊔ κ) where
  ok : A → Result E A
  err : E → Result E A
  panic : Result E A
  out_of_fuel : Result E A

abbrev pub ◌>>=◌ {ℓ κ μ} :
    {E : Type ℓ} {A : Type κ} {B : Type μ} → Result E A → (A → Result E B) → Result E B
panic >>= f = panic
out_of_fuel >>= f = out_of_fuel
err e >>= f = err e
ok a >>= f = f a

abbrev pub ◌>>◌ {ℓ κ} : {E : Type ℓ} {B : Type κ} → Result E (Unit {0}) → Result E B → Result E B
first >> rest = first >>= λ _. rest

infixl 5 ◌>>=◌ ◌>>◌
-- An early `return Err(e)` unless the test holds.
abbrev pub ensure {ℓ} : {E : Type ℓ} → Bool → E → Result E (Unit {0})
ensure true e = ok tt
ensure false e = err e

-- `Option::ok_or`.
abbrev pub ok_or {ℓ κ} : {E : Type ℓ} {A : Type κ} → Option A → E → Result E A
ok_or none e = err e
ok_or (some a) e = ok a

-- `Option::expect`.
abbrev pub expect {ℓ κ} : {E : Type ℓ} {A : Type κ} → Option A → Result E A
expect none = panic
expect (some a) = ok a
