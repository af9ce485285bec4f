-- ===== src/Stream/Buffers/Trace.antt =====
-- A buffer beside what its client has seen go in and come out, and the calls that a client makes.
use graph_core.Base.{List, [], ◌∷◌}

pub data Call {ℓ} (A : Type ℓ) : Type ℓ where
  pushes : A → Call A
  pops : Call A

pub record Trace {ℓ} (B A : Type ℓ) : Type ℓ where
  pub buffer : B
  pub accepted : List A
  pub removed : List A

module _ {ℓ} {B A : Type ℓ} where
  abbrev pub fresh : B → Trace B A
  fresh b = record { buffer = b; accepted = []; removed = [] }

  pub calls : (Trace B A → Call A → Trace B A) → Trace B A → List (Call A) → Trace B A
  calls call t [] = t
  calls call t (c ∷ cs) = calls call (call t c) cs

  -- What each call keeps holds after any calls.
  pub calls_keep {κ} :
      (P : Trace B A → Type κ) (call : Trace B A → Call A → Trace B A)
      → ((t : Trace B A) (c : Call A) → P t → P (call t c))
      → (t : Trace B A) (cs : List (Call A)) → P t
      → P (calls call t cs)
  unfolding calls
  calls_keep P call keep t [] p = p
  calls_keep P call keep t (c ∷ cs) p = calls_keep P call keep (call t c) cs (keep t c p)
