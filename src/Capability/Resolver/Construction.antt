-- ===== src/Capability/Resolver/Construction.antt =====
-- Orders in which each capability comes once, and after everything that it requires.
use graph_core.Base.{List, [], ◌∷◌, ◌++◌, Memᴰ, All, append-nil, append_assoc}
use graph_core.Core.Ident.{Ident}

module _ (next : Ident → List Ident) where
  -- The capabilities of the list can be built one after the other once those of `built` stand.
  abbrev pub Constructs : List Ident → List Ident → Type 0
  Constructs built [] = Unit
  Constructs built (v ∷ vs) =
      ¬ Memᴰ v built × All (λ d. Memᴰ d built) (next v) × Constructs (built ++ v ∷ []) vs

  abbrev pub IsConstruction : List Ident → Type 0
  IsConstruction = Constructs []

  pub Constructs-concat :
      (built order : List Ident) (v : Ident)
      → Constructs built order
      → ¬ Memᴰ v (built ++ order)
      → All (λ d. Memᴰ d (built ++ order)) (next v)
      → Constructs built (order ++ v ∷ [])
  Constructs-concat built [] v c fresh deps =
      (rw (← append-nil built) fresh, rw (← append-nil built) deps, tt)
  Constructs-concat built (x ∷ order) v (f, d, c) fresh deps = (
    f,
    d,
    Constructs-concat (built ++ x ∷ []) order v c (rw (append_assoc built (x ∷ []) order) fresh)
        (rw (append_assoc built (x ∷ []) order) deps),
  )
