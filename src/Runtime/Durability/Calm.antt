-- ===== src/Runtime/Durability/Calm.antt =====
-- Actions that leave the effect facts as they are: observations, and reading.
use graph_core.Base.{◌≡◌, refl, ◌∙◌, inl, inr, Bool-cases, length, eqb}
use graph_core.Base.Results.{Result, ok, err, panic, out_of_fuel}
use graph_core.Base.Results.{◌>>=◌ as then_result}
use graph_core.Base.Order.{list_ord, nat_ord}
use graph_core.Core.Ident.{Ident, ident_ord}
use graph_core.Stream.Item.{StreamItem}
use graph_core.Stream.Sequencer.{StreamSequencer, emit}
use graph_core.Stream.Buffers.Lossless
use graph_core.Stream.Buffers.Lossless.{LosslessBuffer}
use graph_core.Recovery.Model.{AttemptId}
use graph_core.Runtime.State.{RuntimeEvent, task_completed, Runtime, RuntimeError}
use graph_core.Runtime.Action.{Action, gets, convert, ◌>>=◌}
use graph_core.Runtime.Events.{enqueue_execution, emit_execution, emit_completed}
use graph_core.Runtime.Durability.Sound.{Sound, Ends, Ends-onward, Ends-weaken}

-- The same journal, workflow and cancelled tasks, and still sound.
abbrev pub Calm : Runtime → Runtime → Type 0
Calm r r' =
    Sound r' × (r'.journal ≡ r.journal) × (r'.workflow ≡ r.workflow) × (r'.cancelled ≡ r.cancelled)

module _ (P : Runtime → Type 0) where
  pub enqueue-Ends :
      (item : StreamItem RuntimeEvent) (r : Runtime)
      → ((b : LosslessBuffer RuntimeEvent) → P (record r { execution_events = b }))
      → Ends P (λ _. P) (enqueue_execution item r)
  unfolding enqueue_execution Lossless.try_push
  enqueue-Ends item r h =
      elim (Bool-cases (eqb (length r.execution_events.items) r.execution_events.capacity)) [
        | inl e ↦ rw (e, enqueue_execution) (h r.execution_events)
        | inr e ↦ rw (e, enqueue_execution) (h _)
      ]

  pub emit-Ends :
      (event : RuntimeEvent) (r : Runtime)
      → ((s : StreamSequencer) → P (record r { execution_sequencer = s }))
      → Ends P (λ _. P) (emit_execution event r)
  unfolding emit_execution emit
  emit-Ends event r h = elim (Bool-cases r.execution_sequencer.exhausted) [
    | inl e ↦ rw (e, emit_execution) (h _)
    | inr e ↦ rw (e, emit_execution) (h _)
  ]

-- The call neither panics nor runs out of fuel.
abbrev pub Returns : {E A : Type 0} → Result E A → Type 0
Returns (ok _) = Unit
Returns (err _) = Unit
Returns panic = ⊥
Returns out_of_fuel = ⊥

module _ {E A : Type 0} where
  pub gets-Ends :
      (P : Runtime → Type 0) (from : E → RuntimeError) (f : Runtime → Result E A) (r : Runtime)
      → Returns (f r)
      → P r
      → Ends P (λ a r'. P r' × (r' ≡ r) × (f r ≡ ok a)) (gets from f r)
  gets-Ends P from f r h p = by_result (f r) refl h
    where
      by_result :
          (x : Result E A)
          → f r ≡ x
          → Returns x
          → Ends P (λ a r'. P r' × (r' ≡ r) × (f r ≡ ok a)) (r, convert from x)
      by_result (ok a) e h = (p, refl, e)
      by_result (err _) e h = p
      by_result panic e h = h
      by_result out_of_fuel e h = h

  pub Returns-bind :
      {B : Type 0} (x : Result E A) (f : A → Result E B)
      → Returns x
      → ((a : A) → Returns (f a))
      → Returns (then_result x f)
  Returns-bind (ok a) f h k = k a
  Returns-bind (err _) f h k = tt
  Returns-bind panic f h k = h
  Returns-bind out_of_fuel f h k = h

-- The action keeps the invariant and the effect facts, however it ends.
abbrev pub IsCalm : {A : Type 0} → Action A → Type 0
IsCalm m = (r : Runtime) → Sound r → Ends (Calm r) (λ _. Calm r) (m r)

pub Calm-refl : (r : Runtime) → Sound r → Calm r r
Calm-refl r sound = (sound, refl, refl, refl)

pub from_Calm :
    {A : Type 0} (r0 r : Runtime) (m : Action A)
    → IsCalm m
    → Calm r0 r
    → Ends (Calm r0) (λ _. Calm r0) (m r)
from_Calm r0 r m h (sound, j, w, c) =
    let onwards : (t : Runtime) → Calm r t → Calm r0 t =
      λ t (s, j', w', c'). (s, j' ∙ j, w' ∙ w, c' ∙ c) in
    Ends-weaken (Calm r) (Calm r0) (λ _. Calm r) (λ _. Calm r0) (m r) onwards (λ _. onwards)
      (h r sound)

pub bind-IsCalm :
    {A B : Type 0} (m : Action A) (f : A → Action B)
    → IsCalm m
    → ((a : A) → IsCalm (f a))
    → IsCalm (m >>= f)
bind-IsCalm m f h k r sound =
    Ends-onward (Calm r) (λ _. Calm r) (λ _. Calm r) (m r) f (h r sound)
      (λ a t c. from_Calm r t (f a) (k a) c)

pub gets-IsCalm :
    {E A : Type 0} (from : E → RuntimeError) (f : Runtime → Result E A)
    → ((r : Runtime) → Returns (f r))
    → IsCalm (gets from f)
gets-IsCalm from f h r sound =
    Ends-weaken (Calm r) (Calm r) (λ a t. Calm r t × (t ≡ r) × (f r ≡ ok a)) (λ _. Calm r)
      (gets from f r) (λ t c. c) (λ a t c. c.0)
      (gets-Ends (Calm r) from f r (h r) (Calm-refl r sound))

pub enqueue-IsCalm : (item : StreamItem RuntimeEvent) → IsCalm (enqueue_execution item)
enqueue-IsCalm item r sound = enqueue-Ends (Calm r) item r (λ b. Calm-refl r sound)

pub emit-IsCalm : (event : Runtime → RuntimeEvent) → IsCalm (λ r. emit_execution (event r) r)
emit-IsCalm event r sound = emit-Ends (Calm r) (event r) r (λ s. Calm-refl r sound)

pub emit_completed-IsCalm :
    (task_id : Ident) (attempt_id : AttemptId) → IsCalm (emit_completed task_id attempt_id)
unfolding emit_completed
emit_completed-IsCalm task_id attempt_id =
    bind-IsCalm (λ r. emit_execution (task_completed r.run_id task_id attempt_id) r)
      enqueue_execution (emit-IsCalm (λ r. task_completed r.run_id task_id attempt_id))
      enqueue-IsCalm
