-- ===== src/Runtime/Durability/Refusals.antt =====
-- What refuses a capture of capability pins, a configuration or a restart, and what was granted.
use graph_core.Base.{◌≡◌, ◌≢◌, ◌⊎◌, Memᴰ, List, [], ◌∷◌, Option, none, some, length}
use graph_core.Base.Results.{Result, ok, err, panic, out_of_fuel, ◌>>=◌}
use graph_core.Base.Order.{list_ord, nat_ord}
use graph_core.Base.BTreeMap.{get}
use graph_core.Core.Ident.{Text, Ident, ident_ord}
use graph_core.Recovery.Durable.Facts.{CapabilityReplayIdentity}
use graph_core.Capability.Entry.{CapabilityHandle, replay_identity}
use graph_core.Runtime.State.{
  RuntimeError, CapabilityPin, missing_capability, capability_replay_mismatch,
}
use graph_core.Runtime.Pins.{pin_of, by_capability}
use graph_core.Runtime.Start.{Context}
use graph_core.Runtime.Durability.Calm.{Returns}

-- The capabilities that a task requires, each with the identity that its configuration names.
abbrev pub Required : Type 0
Required = List (Ident × Option Text)

abbrev pub Missing : Context → Required → Ident → Type 0
Missing context required c = (x : Option Text) × Memᴰ (c, x) required × (context c ≡ none)

-- The configuration names another identity than that of the capability that is there.
abbrev pub Changed : Context → Required → Ident → Type 0
Changed context required c =
    (x : Text) × (h : CapabilityHandle) × Memᴰ (c, some x) required
    × (context c ≡ some h)
    × (x ≢ replay_identity h)

abbrev pub Suits : Option Text → CapabilityHandle → Type 0
Suits none h = Unit
Suits (some x) h = x ≡ replay_identity h

-- Each required capability is there with the identity that is configured, and is pinned.
abbrev pub AllPinned : Context → Required → List CapabilityPin → Type 0
AllPinned context [] [] = Unit
AllPinned context ((c, x) ∷ required) (p ∷ pins) =
    ((h : CapabilityHandle) × (context c ≡ some h) × (p ≡ pin_of c h) × Suits x h)
    × AllPinned context required pins
AllPinned context [] (_ ∷ _) = ⊥
AllPinned context (_ ∷ _) [] = ⊥

-- The pins are those of the identities that an earlier attempt was admitted with.
abbrev pub Admits : Option (List CapabilityReplayIdentity) → List CapabilityPin → Type 0
Admits none pins = Unit
Admits (some identities) pins =
    (length (by_capability identities) ≡ length pins)
    × ((p : CapabilityPin)
        → Memᴰ p pins
        → get p.capability_id (by_capability identities) ≡ some p.replay_identity)

-- What refuses a capture: a capability that is missing, or one that is not what was configured or
-- what was admitted.
abbrev pub CaptureRefused :
    Context → Required → Option (List CapabilityReplayIdentity) → Ident → RuntimeError → Type 0
CaptureRefused context required expected task_id (missing_capability t c) =
    (t ≡ task_id) × Missing context required c
CaptureRefused context required expected task_id (capability_replay_mismatch t c) =
    (t ≡ task_id)
    × (Changed context required c
        ⊎ ((pins : List CapabilityPin) × AllPinned context required pins × ¬ Admits expected pins))
CaptureRefused context required expected task_id _ = ⊥

-- A result with the property, or an error with its reason.
abbrev pub Gives :
    {A : Type 0} → (RuntimeError → Type 0) → (A → Type 0) → Result RuntimeError A → Type 0
Gives E P (ok a) = P a
Gives E P (err e) = E e
Gives E P panic = ⊥
Gives E P out_of_fuel = ⊥

module _ {A B : Type 0} where
  pub Gives-bind :
      (E : RuntimeError → Type 0) (P : A → Type 0) (Q : B → Type 0) (x : Result RuntimeError A)
      (f : A → Result RuntimeError B)
      → Gives E P x
      → ((a : A) → P a → Gives E Q (f a))
      → Gives E Q (x >>= f)
  Gives-bind E P Q (ok a) f h k = k a h
  Gives-bind E P Q (err _) f h k = h
  Gives-bind E P Q panic f h k = h
  Gives-bind E P Q out_of_fuel f h k = h

module _ {A : Type 0} where
  pub Gives-weaken :
      (E E' : RuntimeError → Type 0) (P P' : A → Type 0) (x : Result RuntimeError A)
      → ((e : RuntimeError) → E e → E' e)
      → ((a : A) → P a → P' a)
      → Gives E P x
      → Gives E' P' x
  Gives-weaken E E' P P' (ok a) f g h = g a h
  Gives-weaken E E' P P' (err e) f g h = f e h
  Gives-weaken E E' P P' panic f g h = h
  Gives-weaken E E' P P' out_of_fuel f g h = h

  pub Returns-of_Gives :
      (E : RuntimeError → Type 0) (P : A → Type 0) (x : Result RuntimeError A)
      → Gives E P x
      → Returns x
  Returns-of_Gives E P (ok _) h = tt
  Returns-of_Gives E P (err _) h = tt
  Returns-of_Gives E P panic h = h
  Returns-of_Gives E P out_of_fuel h = h
