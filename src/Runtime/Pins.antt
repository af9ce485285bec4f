-- ===== src/Runtime/Pins.antt =====
-- `capture_capability_pins`.
use graph_core.Base.{
  List, [], ◌∷◌, Bool, true, false, not, ◌&&◌, ◌||◌, Option, none, some, length, if◌then◌else◌, eqb,
}
use graph_core.Base.Results.{Result, ok, err, ok_or, ensure, ◌>>=◌, ◌>>◌}
use graph_core.Base.Texts.{codes}
use graph_core.Base.Order.{◌==◌, list_ord, nat_ord}
use graph_core.Base.BTreeMap.{BTreeMap, get, insert}
use graph_core.Core.Ident.{Text, Ident, ident_ord}
use graph_core.Recovery.Durable.Facts.{CapabilityReplayIdentity}
use graph_core.Capability.Entry.{CapabilityHandle, generation, entry_id, replay_identity}
use graph_core.Runtime.State.{
  CapabilityPin, Runtime, RuntimeError, missing_capability, capability_replay_mismatch,
}

-- The derived `PartialEq`.
abbrev pub same_identity : CapabilityReplayIdentity → CapabilityReplayIdentity → Bool
same_identity a b =
    a.capability_id == b.capability_id && a.definition_identity == b.definition_identity

-- A configured identity must be the handle's.
unfoldable pub check_identity :
    Ident → Ident → Option Text → CapabilityHandle → Result RuntimeError (Unit {0})
check_identity task_id capability_id none h = ok tt
check_identity task_id capability_id (some configured) h =
    ensure (configured == replay_identity h) (capability_replay_mismatch task_id capability_id)

abbrev pub pin_of : Ident → CapabilityHandle → CapabilityPin
pin_of capability_id h = record {
  capability_id = capability_id;
  generation = generation h;
  entry_id = entry_id h;
  replay_identity = record {
    capability_id = capability_id;
    definition_identity = replay_identity h;
  };
  handle = h;
}

-- The loop over the required capabilities; `context` is `self.capability_runtime.context().get`.
unfoldable pub capture_all :
    (Ident → Option CapabilityHandle)
    → Ident
    → List (Ident × Option Text)
    → Result RuntimeError (List CapabilityPin)
capture_all context task_id [] = ok []
capture_all context task_id ((capability_id, configured) ∷ required) = do
  h ← ok_or (context capability_id) (missing_capability task_id capability_id)
  check_identity task_id capability_id configured h
  pins ← capture_all context task_id required
  ok (pin_of capability_id h ∷ pins)

abbrev pub collect :
    List CapabilityReplayIdentity
    → BTreeMap Ident CapabilityReplayIdentity
    → BTreeMap Ident CapabilityReplayIdentity
collect [] m = m
collect (i ∷ is) m = collect is (insert i.capability_id i m)

-- `collect::<BTreeMap<_, _>>()`.
unfoldable pub by_capability :
    List CapabilityReplayIdentity → BTreeMap Ident CapabilityReplayIdentity
by_capability identities = collect identities []

-- Some pin is not what was expected.
unfoldable pub any_differs : BTreeMap Ident CapabilityReplayIdentity → List CapabilityPin → Bool
any_differs expected [] = false
any_differs expected (pin ∷ pins) =
    let rest = any_differs expected pins in
    elim (get pin.capability_id expected) [
      | none ↦ true
      | some identity ↦ not (same_identity identity pin.replay_identity) || rest
    ]

-- The capability that a mismatch names.
unfoldable pub first_capability :
    BTreeMap Ident CapabilityReplayIdentity → List CapabilityPin → Ident
first_capability expected (pin ∷ pins) = pin.capability_id
first_capability ((id, _) ∷ expected) [] = id
first_capability [] [] = record { value = codes "durable-capability-mismatch" }

unfoldable pub check_expected :
    Ident
    → List CapabilityPin
    → Option (List CapabilityReplayIdentity)
    → Result RuntimeError (List CapabilityPin)
check_expected task_id pins none = ok pins
check_expected task_id pins (some identities) =
    let expected = by_capability identities in
    if not (eqb (length expected) (length pins)) || any_differs expected pins
    then err (capability_replay_mismatch task_id (first_capability expected pins))
    else ok pins

unfoldable pub required_of : Runtime → Ident → List (Ident × Option Text)
required_of r task_id = elim (get task_id r.task_configs) [
  | none ↦ []
  | some config ↦ config.required
]

unfoldable pub capture_capability_pins :
    Ident
    → Option (List CapabilityReplayIdentity)
    → Runtime
    → Result RuntimeError (List CapabilityPin)
capture_capability_pins task_id expected r = do
  pins ← capture_all r.context task_id (required_of r task_id)
  check_expected task_id pins expected
