-- ===== src/Runtime/Durability/Readmission.antt =====
-- How `collect_configs` and `restore_attempts` can end.
use graph_core.Base.{
  ◌≡◌, refl, ap, inl, inr, true, List, [], ◌∷◌, Option, none, some, is_some, Memᴰ, arith,
  if◌then◌else◌, Bool-cases,
}
use graph_core.Base.Order.{◌==◌, list_ord, nat_ord}
use graph_core.Base.BTreeMap.{BTreeMap, get, insert, get-insert}
use graph_core.Core.Ident.{Ident, ident_ord}
use graph_core.Workflow.Topology.{task}
use graph_core.Workflow.Graph.{WorkflowGraph}
use graph_core.Recovery.Durable.Facts.{AttemptAdmission}
use graph_core.Runtime.Config.{TaskConfig}
use graph_core.Runtime.State.{Runtime, RuntimeError, TaskAttempt, CapabilityPin, unknown_task}
use graph_core.Runtime.Pins.{required_of, capture_capability_pins}
use graph_core.Runtime.Start.{Context, collect_configs, restore_attempts}
use graph_core.Runtime.Durability.Refusals.{
  Required, AllPinned, Admits, CaptureRefused, Gives, Gives-bind, Gives-weaken,
}
use graph_core.Runtime.Durability.Capture.{capture-Gives}
use mathlib.Core.List.Memᴰ

-- The last configuration that is given for the task.
unfoldable pub last_config : List (Ident × TaskConfig) → Ident → Option TaskConfig
last_config [] t = none
last_config ((u, c) ∷ configs) t =
    let rest = last_config configs t in
    elim rest [ some d ↦ some d | none ↦ if u == t then some c else none ]

abbrev pub required_by : List (Ident × TaskConfig) → Ident → Required
required_by configs t = elim (last_config configs t) [ none ↦ [] | some c ↦ c.required ]

-- A configuration of a task that the workflow does not have.
abbrev pub ConfigRefused : WorkflowGraph → List (Ident × TaskConfig) → RuntimeError → Type 0
ConfigRefused w configs (unknown_task t) =
    (c : TaskConfig) × Memᴰ (t, c) configs × (task w.topology t ≡ none)
ConfigRefused w configs _ = ⊥

-- An earlier attempt whose capabilities cannot be captured again as they were.
abbrev pub AttemptRefused :
    Context → (Ident → Required) → List AttemptAdmission → RuntimeError → Type 0
AttemptRefused context required as_ e =
    (a : AttemptAdmission) × Memᴰ a as_
    × CaptureRefused context (required a.task_id) (some a.capabilities) a.task_id e

-- Every configured task is in the workflow.
abbrev pub AllKnown : WorkflowGraph → List (Ident × TaskConfig) → Type 0
AllKnown w configs =
    (t : Ident) (c : TaskConfig) → Memᴰ (t, c) configs → is_some (task w.topology t) ≡ true

-- The earlier attempt again, with the capabilities of today, which are those it was admitted with.
pub record Resumed (context : Context) (required : Ident → Required) (a : AttemptAdmission)
    (t : TaskAttempt) : Type 0 where
  pub same_run : t.run_id ≡ a.run_id
  pub same_task : t.task_id ≡ a.task_id
  pub same_attempt : t.attempt_id ≡ a.attempt_id
  pub same_operation : t.operation_id ≡ a.operation_id
  pub pinned : AllPinned context (required a.task_id) t.capability_pins
  pub admitted : Admits (some a.capabilities) t.capability_pins

abbrev pub Readmitted :
    Context → (Ident → Required) → List AttemptAdmission → List TaskAttempt → Type 0
Readmitted context required [] [] = Unit
Readmitted context required (a ∷ as_) (t ∷ ts) =
    Resumed context required a t × Readmitted context required as_ ts
Readmitted context required [] (_ ∷ _) = ⊥
Readmitted context required (_ ∷ _) [] = ⊥

pub restore_attempts-Gives :
    (r : Runtime) (as_ : List AttemptAdmission)
    → Gives
        (AttemptRefused r.context (required_of r) as_)
        (Readmitted r.context (required_of r) as_)
        (restore_attempts r as_)
unfolding restore_attempts
restore_attempts-Gives r [] = tt
restore_attempts-Gives r (a ∷ as_) =
    let required = required_of r in
    let pinned : List CapabilityPin → Type 0 =
      λ pins. AllPinned r.context (required a.task_id) pins × Admits (some a.capabilities) pins in
    let E = AttemptRefused r.context required (a ∷ as_) in
    Gives-bind E pinned (Readmitted r.context required (a ∷ as_))
      (capture_capability_pins a.task_id (some a.capabilities) r) _
      (Gives-weaken (CaptureRefused r.context (required a.task_id) (some a.capabilities) a.task_id)
        E pinned pinned (capture_capability_pins a.task_id (some a.capabilities) r)
        (λ e h. (a, Memᴰ.head refl, h)) (λ _ p. p)
        (capture-Gives a.task_id (some a.capabilities) r))
      (λ pins (p, q).
        Gives-bind E (Readmitted r.context required as_) (Readmitted r.context required (a ∷ as_))
          (restore_attempts r as_) _
          (Gives-weaken (AttemptRefused r.context required as_) E
            (Readmitted r.context required as_) (Readmitted r.context required as_)
            (restore_attempts r as_) (λ e (b, m, h). (b, Memᴰ.tail m, h)) (λ _ h. h)
            (restore_attempts-Gives r as_))
          (λ ts h. (
            record {
              same_run = refl;
              same_task = refl;
              same_attempt = refl;
              same_operation = refl;
              pinned = p;
              admitted = q;
            },
            h,
          )))

later_ConfigRefused :
    (w : WorkflowGraph) (head : Ident × TaskConfig) (configs : List (Ident × TaskConfig))
    (e : RuntimeError)
    → ConfigRefused w configs e
    → ConfigRefused w (head ∷ configs) e
later_ConfigRefused w head configs (unknown_task t) (c, m, h) = (c, Memᴰ.tail m, h)
later_ConfigRefused w head configs _ h = absurd h

-- The configurations that are collected: the last one given, else the one that was there.
abbrev pub Collected :
    WorkflowGraph
    → List (Ident × TaskConfig)
    → BTreeMap Ident TaskConfig
    → BTreeMap Ident TaskConfig
    → Type 0
Collected w configs m n =
    AllKnown w configs
    × ((t : Ident) → get t n ≡ (elim (last_config configs t) [ some c ↦ some c | none ↦ get t m ]))

pub collect_configs-Gives :
    (w : WorkflowGraph) (configs : List (Ident × TaskConfig)) (m : BTreeMap Ident TaskConfig)
    → Gives (ConfigRefused w configs) (Collected w configs m) (collect_configs w configs m)
unfolding collect_configs last_config
collect_configs-Gives w [] m = ((λ t c h. absurd (Memᴰ.not-nil h)), λ t. refl)
collect_configs-Gives w ((u, c) ∷ configs) m = elim (Bool-cases (is_some (task w.topology u))) [
  | inr e ↦ rw (e, collect_configs) (c, Memᴰ.head refl, ground arith)
  | inl e ↦
      let n = insert u c m in
      rw (e, collect_configs)
        (Gives-weaken (ConfigRefused w configs) (ConfigRefused w ((u, c) ∷ configs))
          (Collected w configs n) (Collected w ((u, c) ∷ configs) m) (collect_configs w configs n)
          (later_ConfigRefused w (u, c) configs)
          (λ o (known, same). (
            λ t d h. elim (Memᴰ.cases_cons h) [
              | inl s ↦ rw (ap (λ (x : Ident × TaskConfig). x.0) s) e
              | inr h ↦ known t d h
            ],
            λ t. ground (arith, same t, get-insert t u c m),
          ))
          (collect_configs-Gives w configs n))
]
