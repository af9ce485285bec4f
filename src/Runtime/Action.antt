-- ===== src/Runtime/Action.antt =====
-- A method of `Runtime`: what it wrote before it failed stays written.
use graph_core.Base.{Option}
use graph_core.Base.Results.{Result, ok, err, panic, out_of_fuel}
use graph_core.Base.Results
use graph_core.Runtime.State.{Runtime, RuntimeError}

abbrev pub Outcome : Type 0 → Type 0
Outcome A = Runtime × Result RuntimeError A

abbrev pub Action : Type 0 → Type 0
Action A = Runtime → Outcome A

infixl 5 ◌>>=◌ ◌>>◌
module _ {A B : Type 0} where
  abbrev pub onward : Runtime → Result RuntimeError A → (A → Action B) → Outcome B
  onward r (ok a) f = f a r
  onward r (err e) f = (r, err e)
  onward r panic f = (r, panic)
  onward r out_of_fuel f = (r, out_of_fuel)

  abbrev pub ◌>>=◌ : Action A → (A → Action B) → Action B
  ◌>>=◌ m f r = onward (m r).0 (m r).1 f

abbrev pub ◌>>◌ : {B : Type 0} → Action (Unit {0}) → Action B → Action B
m >> k = m >>= λ _. k

module _ {A : Type 0} where
  abbrev pub pure : A → Action A
  pure a r = (r, ok a)

  abbrev pub fail : RuntimeError → Action A
  fail e r = (r, err e)

  -- The conversion by `From` that `?` makes.
  abbrev pub convert : {E : Type 0} → (E → RuntimeError) → Result E A → Result RuntimeError A
  convert from (ok a) = ok a
  convert from (err e) = err (from e)
  convert from panic = panic
  convert from out_of_fuel = out_of_fuel

  -- A call that reads the state.
  abbrev pub gets : {E : Type 0} → (E → RuntimeError) → (Runtime → Result E A) → Action A
  gets from f r = (r, convert from (f r))

  -- `Option::expect`.
  abbrev pub expects : (Runtime → Option A) → Action A
  expects f r = (r, Results.expect (f r))

-- `Result::expect`.
abbrev pub unwrapped : {A E : Type 0} → Result E A → Result RuntimeError A
unwrapped (ok a) = ok a
unwrapped (err _) = panic
unwrapped panic = panic
unwrapped out_of_fuel = out_of_fuel

abbrev pub modify : (Runtime → Runtime) → Action (Unit {0})
modify f r = (f r, ok tt)

-- `Result::map`.
abbrev pub map_ok : {A B : Type 0} → (A → B) → Result RuntimeError A → Result RuntimeError B
map_ok f (ok a) = ok (f a)
map_ok f (err e) = err e
map_ok f panic = panic
map_ok f out_of_fuel = out_of_fuel
