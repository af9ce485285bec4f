-- ===== src/Runtime/Durability/Rounds.antt =====
-- `run_until_blocked` returns.
use graph_core.Base.{
  ℕ, zero, suc, ◌≤◌, ◌<◌, ◌≡◌, inl, inr, true, false, List, [], ◌∷◌, length, Memᴰ, arith,
  Bool-cases, if◌then◌else◌, length-map,
}
use graph_core.Base.Order.{◌==◌, ==_refl}
use graph_core.Base.BTreeMap.{get-insert}
use graph_core.Core.Ident.{Ident, ident_ord}
use graph_core.Workflow.Topology.{task_ids}
use graph_core.Workflow.Facts.{ExecutionFacts, is_completed}
use graph_core.Workflow.Graph.{WorkflowGraph, record_completion}
use graph_core.Workflow.Graph.Edges.{contains_task_iff}
use graph_core.Runtime.State.{StepResult, completed, effect_pending, blocked, idle, Runtime}
use graph_core.Runtime.Action.{pure}
use graph_core.Runtime.Step.{step, stops, run_from, run_until_blocked}
use graph_core.Runtime.Durability.Sound.{Sound, Ends, Ends-onward}
use graph_core.Runtime.Durability.Steps.{Moves, Stepped, step-Stepped}
use mathlib.Core.List.Memᴰ

-- How many of the tasks are not completed.
unfoldable open_count : ExecutionFacts → List Ident → ℕ
open_count f [] = 0
open_count f (t ∷ ts) = let rest = open_count f ts in if is_completed f t then rest else suc rest

open_count-length : (f : ExecutionFacts) (ts : List Ident) → open_count f ts ≤ length ts
unfolding open_count
open_count-length f [] = omega arith
open_count-length f (t ∷ ts) =
    let ih = open_count-length f ts in
    elim (Bool-cases (is_completed f t)) [
      | inl e ↦ rw (e, open_count) (omega arith)
      | inr e ↦ rw (e, open_count) (omega arith)
    ]

is_completed-record_completion :
    (f : ExecutionFacts) (id t : Ident)
    → is_completed (record_completion f id) t ≡ (if id == t then true else is_completed f t)
unfolding is_completed
is_completed-record_completion f id t = ground (arith, get-insert t id tt f.completed)

open_count-later :
    (f : ExecutionFacts) (id : Ident) (ts : List Ident)
    → open_count (record_completion f id) ts ≤ open_count f ts
unfolding open_count
open_count-later f id [] = omega arith
open_count-later f id (t ∷ ts) =
    let ih = open_count-later f id ts in grind (arith, is_completed-record_completion f id t)

open_count-completed :
    (f : ExecutionFacts) (id : Ident) (ts : List Ident)
    → Memᴰ id ts
    → is_completed f id ≡ false
    → open_count (record_completion f id) ts < open_count f ts
unfolding open_count
open_count-completed f id [] m e = absurd (Memᴰ.not-nil m)
open_count-completed f id (t ∷ ts) m e =
    let later = open_count-later f id ts in
    elim (Memᴰ.cases_cons m) [
      | inl s ↦ grind (arith, is_completed-record_completion f id t, ==_refl id, s)
      | inr n ↦
          let ih = open_count-completed f id ts n e in
          grind (arith, is_completed-record_completion f id t)
    ]

-- The rounds of `run_until_blocked` with their results: each but the last completes a task.
pub data Rounds : WorkflowGraph → List StepResult → WorkflowGraph → Type 0 where
  final :
      {w w' : WorkflowGraph} {x : StepResult} → Moves w x w' → stops x ≡ true → Rounds w (x ∷ []) w'
  round :
      {w v w' : WorkflowGraph} {x : StepResult} {xs : List StepResult}
      → Moves w x v
      → stops x ≡ false
      → Rounds v xs w'
      → Rounds w (x ∷ xs) w'

-- The tasks of the workflow that are not completed.
abbrev remaining : WorkflowGraph → ℕ
remaining w = open_count w.facts (task_ids w.topology)

-- A completion leaves fewer tasks open.
remaining-completion :
    (w w' : WorkflowGraph) (x : StepResult)
    → Moves w x w'
    → stops x ≡ false
    → remaining w' < remaining w
remaining-completion w w' (completed id a) (may, e) s = rw e (
    open_count-completed w.facts id (task_ids w.topology)
      ((contains_task_iff w.topology id).0 may.0) may.1)
remaining-completion w w' (effect_pending _ _ _) m s = absurd (ground arith)
remaining-completion w w' (blocked _ _ _) m s = absurd (ground arith)
remaining-completion w w' idle m s = absurd (ground arith)

abbrev Ran : WorkflowGraph → List StepResult → Runtime → Type 0
Ran w xs r = Sound r × Rounds w xs r.workflow

run_from-Ends :
    (fuel : ℕ) (r : Runtime)
    → Sound r
    → remaining r.workflow < fuel
    → Ends Sound (Ran r.workflow) (run_from fuel r)
unfolding run_from
run_from-Ends zero r sound h = absurd (omega arith)
run_from-Ends (suc fuel) r sound h =
    Ends-onward Sound (Stepped r.workflow) (Ran r.workflow) (step r) _ (step-Stepped r sound)
      (λ x t (s, moves). elim (Bool-cases (stops x)) [
        | inl e ↦ rw e (s, final moves e)
        | inr e ↦ rw e (
            Ends-onward Sound (Ran t.workflow) (Ran r.workflow) (run_from fuel t)
              (λ xs. pure (x ∷ xs))
              (run_from-Ends fuel t s
                (let less = remaining-completion r.workflow t.workflow x moves e in omega arith))
              (λ xs u (su, rounds). (su, round moves e rounds)))
      ])

-- `run_until_blocked` returns within one round more than the workflow has tasks, without a panic,
-- and keeps the invariant, however it ends. If it succeeds, each of its results but the last
-- reports a completion, the last does not, and the workflow afterwards is the one before with
-- these completions, each of a task that was open with its prerequisites completed.
pub run_until_blocked_lem :
    (r : Runtime)
    → Sound r
    → Ends Sound (λ results t. Sound t × Rounds r.workflow results t.workflow) (run_until_blocked r)
unfolding run_until_blocked task_ids
run_until_blocked_lem r sound = run_from-Ends (suc (length r.workflow.topology.tasks)) r sound (
    let bound = open_count-length r.workflow.facts (task_ids r.workflow.topology) in
    let same = length-map r.workflow.topology.tasks (λ e. e.0) in omega arith)
