-- ===== src/Core/Laws.antt =====
-- Which texts are identifiers, and how a revision advances.
use graph_core.Base.{◌≡◌, refl, ◌↔◌, true, [], ◌∷◌, arith, All, is_empty}
use graph_core.Base.Results.{ok, err}
use graph_core.Core.Ident.{Text, new, invalid_id, is_whitespace, trim, trim_start, trim_end}

abbrev pub IsBlank : Text → Type 0
IsBlank = All (λ c. is_whitespace c ≡ true)

trim_end-empty : (s : Text) → (is_empty (trim_end s) ≡ true) ↔ IsBlank s
unfolding trim_end
trim_end-empty [] = (λ _. tt, λ _. refl)
trim_end-empty (c ∷ cs) = ground (arith, trim_end-empty cs)

trim-empty : (s : Text) → (is_empty (trim s) ≡ true) ↔ IsBlank s
unfolding trim trim_start
trim-empty [] = trim_end-empty []
trim-empty (c ∷ cs) = ground (arith, trim-empty cs, trim_end-empty (c ∷ cs))

-- A text is refused exactly when every character of it is white space; any other text becomes an
-- identifier that reads back as the same text.
pub new_iff :
    (s : Text)
    → ((new s ≡ err invalid_id) ↔ IsBlank s) × (¬ IsBlank s → new s ≡ ok (record { value = s }))
unfolding new
new_iff s = ground (arith, trim-empty s)
