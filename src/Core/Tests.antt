-- ===== src/Core/Tests.antt =====
-- Runs of crates/core/src/lib.rs.
use graph_core.Base.{◌≡◌, refl, [], ◌∷◌}
use graph_core.Base.Results.{err}
use graph_core.Core.Ident.{Text, new, invalid_id, is_whitespace, trim, trim_start, trim_end}

blank : Text
blank = 0x20 ∷ 0x20 ∷ 0x3000 ∷ []

rejects_blank_ids : new blank ≡ err invalid_id
unfolding blank new trim trim_start trim_end is_whitespace
rejects_blank_ids = refl
