-- ===== src/Core/Ident.antt =====
-- crates/core/src/lib.rs: `Id`, here `Ident`.
-- A `String` is the list of its code points; their order is that of the UTF-8 bytes.
use graph_core.Base.{
  ℕ, ◌+◌, ◌≡◌, Bool, ◌&&◌, ◌||◌, List, [], ◌∷◌, is_empty, if◌then◌else◌, ltb, eqb,
}
use graph_core.Base.Results.{Result, ok, err}
use graph_core.Base.Order.{Ord, ord_by, nat_ord, list_ord}

abbrev pub Text : Type 0
Text = List ℕ

-- `char::is_whitespace`, the property White_Space.
unfoldable pub is_whitespace : ℕ → Bool
is_whitespace c =
    between 0x09 0x0d
    || eqb c 0x20
    || eqb c 0x85
    || eqb c 0xa0
    || eqb c 0x1680
    || between 0x2000 0x200a
    || eqb c 0x2028
    || eqb c 0x2029
    || eqb c 0x202f
    || eqb c 0x205f
    || eqb c 0x3000
  where
    between : ℕ → ℕ → Bool
    between lo hi = ltb lo (c + 1) && ltb c (hi + 1)

unfoldable pub trim_start : Text → Text
trim_start [] = []
trim_start (c ∷ cs) = if is_whitespace c then trim_start cs else c ∷ cs

unfoldable pub trim_end : Text → Text
trim_end [] = []
trim_end (c ∷ cs) =
    let rest = trim_end cs in if is_empty rest && is_whitespace c then [] else c ∷ rest

-- `str::trim`.
unfoldable pub trim : Text → Text
trim s = trim_end (trim_start s)

-- `Id(String)`.
pub record Ident : Type 0 where
  pub value : Text

pub data InvalidId : Type 0 where
  invalid_id : InvalidId

unfoldable pub new : Text → Result InvalidId Ident
new value = if is_empty (trim value) then err invalid_id else ok (record { value = value })

abbrev pub as_str : Ident → Text
as_str i = i.value

pub eq_of_value : (a b : Ident) → a.value ≡ b.value → a ≡ b
eq_of_value a b e = λ i. record { value = e i }

-- The derived `Ord`.
instance unfoldable pub ident_ord : Ord Ident
ident_ord = ord_by (λ i. i.value) eq_of_value
