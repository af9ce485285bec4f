-- ===== src/Runtime/Durability/Endings.antt =====
-- Actions that end with an error for a reason, and the announcement of a completion.
use graph_core.Base.{◌≡◌, refl, inl, inr, true, [], ◌∷◌, ◌++◌, arith, Bool-cases, length, eqb}
use graph_core.Base.Results.{ok, err, panic, out_of_fuel}
use graph_core.Core.Ident.{Ident}
use graph_core.Stream.Item.{StreamItem}
use graph_core.Stream.Sequencer.{emit}
use graph_core.Stream.Buffers.Lossless
use graph_core.Recovery.Model.{AttemptId}
use graph_core.Runtime.State.{
  RuntimeEvent, task_completed, Runtime, RuntimeError, stream, execution_backpressure,
}
use graph_core.Runtime.Action.{Outcome, Action, onward}
use graph_core.Runtime.Events.{enqueue_execution, emit_execution, emit_completed}
use graph_core.Runtime.Durability.Sound.{Ends}

-- How an action ends: without a panic and with fuel left, with `Q` if it succeeds and else with `P`
-- of its error.
abbrev pub Concludes :
    {A : Type 0} → (RuntimeError → Runtime → Type 0) → (A → Runtime → Type 0) → Outcome A → Type 0
Concludes P Q (r, ok a) = Q a r
Concludes P Q (r, err e) = P e r
Concludes P Q (r, panic) = ⊥
Concludes P Q (r, out_of_fuel) = ⊥

module _ {A B : Type 0} where
  pub Concludes-onward :
      (P : RuntimeError → Runtime → Type 0) (Q : A → Runtime → Type 0) (R : B → Runtime → Type 0)
      (o : Outcome A) (f : A → Action B)
      → Concludes P Q o
      → ((a : A) (r : Runtime) → Q a r → Concludes P R (f a r))
      → Concludes P R (onward o.0 o.1 f)
  Concludes-onward P Q R (r, ok a) f h k = k a r h
  Concludes-onward P Q R (r, err _) f h k = h
  Concludes-onward P Q R (r, panic) f h k = h
  Concludes-onward P Q R (r, out_of_fuel) f h k = h

module _ {A : Type 0} where
  pub Concludes-weaken :
      (P P' : RuntimeError → Runtime → Type 0) (Q Q' : A → Runtime → Type 0) (o : Outcome A)
      → ((e : RuntimeError) (r : Runtime) → P e r → P' e r)
      → ((a : A) (r : Runtime) → Q a r → Q' a r)
      → Concludes P Q o
      → Concludes P' Q' o
  Concludes-weaken P P' Q Q' (r, ok a) f g h = g a r h
  Concludes-weaken P P' Q Q' (r, err e) f g h = f e r h
  Concludes-weaken P P' Q Q' (r, panic) f g h = h
  Concludes-weaken P P' Q Q' (r, out_of_fuel) f g h = h

  -- The invariant, and in addition what is known of each ending.
  pub Concludes-with :
      (P : Runtime → Type 0) (P' : RuntimeError → Runtime → Type 0) (Q Q' : A → Runtime → Type 0)
      (o : Outcome A)
      → Ends P Q o
      → Concludes P' Q' o
      → Concludes (λ e r. P r × P' e r) (λ a r. Q a r × Q' a r) o
  Concludes-with P P' Q Q' (r, ok _) h k = (h, k)
  Concludes-with P P' Q Q' (r, err _) h k = (h, k)
  Concludes-with P P' Q Q' (r, panic) h k = h
  Concludes-with P P' Q Q' (r, out_of_fuel) h k = h

  pub Ends-of_Concludes :
      (P : RuntimeError → Runtime → Type 0) (P' : Runtime → Type 0) (Q Q' : A → Runtime → Type 0)
      (o : Outcome A)
      → ((e : RuntimeError) (r : Runtime) → P e r → P' r)
      → ((a : A) (r : Runtime) → Q a r → Q' a r)
      → Concludes P Q o
      → Ends P' Q' o
  Ends-of_Concludes P P' Q Q' (r, ok a) f g h = g a r h
  Ends-of_Concludes P P' Q Q' (r, err e) f g h = f e r h
  Ends-of_Concludes P P' Q Q' (r, panic) f g h = h
  Ends-of_Concludes P P' Q Q' (r, out_of_fuel) f g h = h

  pub Concludes-of_Ends :
      (P : Runtime → Type 0) (P' : RuntimeError → Runtime → Type 0) (Q Q' : A → Runtime → Type 0)
      (o : Outcome A)
      → ((e : RuntimeError) (r : Runtime) → P r → P' e r)
      → ((a : A) (r : Runtime) → Q a r → Q' a r)
      → Ends P Q o
      → Concludes P' Q' o
  Concludes-of_Ends P P' Q Q' (r, ok a) f g h = g a r h
  Concludes-of_Ends P P' Q Q' (r, err e) f g h = f e r h
  Concludes-of_Ends P P' Q Q' (r, panic) f g h = h
  Concludes-of_Ends P P' Q Q' (r, out_of_fuel) f g h = h

-- The next item of the lifecycle stream.
abbrev pub item_of : Runtime → RuntimeEvent → StreamItem RuntimeEvent
item_of r event = record {
  stream_id = r.execution_sequencer.stream_id;
  sequence = r.execution_sequencer.next_sequence;
  payload = event;
}

-- The event is the last that is pending, and the rest is as it was.
abbrev pub Announced : Runtime → RuntimeEvent → Runtime → Type 0
Announced r event r' = r' ≡ record r {
  execution_sequencer = r'.execution_sequencer;
  execution_events = record (r.execution_events) {
    items = r.execution_events.items ++ item_of r event ∷ [];
  };
}

-- The stream has no further sequence, or its buffer is full and hands the item back.
abbrev pub Unannounced : Runtime → RuntimeEvent → RuntimeError → Runtime → Type 0
Unannounced r event (stream _) r' = (r.execution_sequencer.exhausted ≡ true) × (r' ≡ r)
Unannounced r event (execution_backpressure item) r' =
    (item ≡ item_of r event)
    × (length r.execution_events.items ≡ r.execution_events.capacity)
    × (r' ≡ record r { execution_sequencer = r'.execution_sequencer })
Unannounced r event _ r' = ⊥

pub emit_completed-Concludes :
    (task_id : Ident) (a : AttemptId) (r : Runtime)
    → let event = task_completed r.run_id task_id a in
      Concludes (Unannounced r event) (λ _. Announced r event) (emit_completed task_id a r)
unfolding emit_completed emit_execution enqueue_execution emit Lossless.try_push
emit_completed-Concludes task_id a r = elim (Bool-cases r.execution_sequencer.exhausted) [
  | inl e ↦ rw (e, emit_completed) (refl, refl)
  | inr e ↦ elim (Bool-cases (eqb (length r.execution_events.items) r.execution_events.capacity)) [
    | inl full ↦ rw (e, emit_completed) (rw full (refl, ground arith, refl))
    | inr room ↦ rw (e, emit_completed) (rw room refl)
  ]
]
