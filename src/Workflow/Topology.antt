-- ===== src/Workflow/Topology.antt =====
-- `Task`, `WorkflowTopology` and its depth-first search for a cycle.
use graph_core.Base.{
  ℕ, zero, suc, Bool, List, [], ◌∷◌, ◌++◌, map, Option, none, some, unwrap_or, length, drop_last,
}
use graph_core.Base.Results.{Result, ok, err, panic, out_of_fuel, ◌>>=◌}
use graph_core.Base.BTreeMap.{BTreeMap, BTreeSet, keys, values, get, insert, contains_key}
use graph_core.Base.Walks.{from_position}
use graph_core.Core.Ident.{Text, Ident, ident_ord}
use mathlib.Core.List.{flatten}

pub record Task : Type 0 where
  pub id : Ident
  pub label : Text

pub record WorkflowTopology : Type 0 where
  pub tasks : BTreeMap Ident Task
  pub dependencies : BTreeMap Ident (BTreeSet Ident)

abbrev pub empty : WorkflowTopology
empty = record { tasks = []; dependencies = [] }

unfoldable pub task : WorkflowTopology → Ident → Option Task
task t id = get id t.tasks

unfoldable pub tasks : WorkflowTopology → List Task
tasks t = values t.tasks

unfoldable pub task_ids : WorkflowTopology → List Ident
task_ids t = keys t.tasks

-- The direct prerequisites of a task.
unfoldable pub dependencies : WorkflowTopology → Ident → List Ident
dependencies t id = keys (unwrap_or [] (get id t.dependencies))

-- Every (task, dependency) edge.
unfoldable pub edges : WorkflowTopology → List (Ident × Ident)
edges t = flatten (map (λ e. map (λ d. (e.0, d)) (keys e.1)) t.dependencies)

unfoldable pub contains_task : WorkflowTopology → Ident → Bool
contains_task t id = contains_key id t.tasks

pub data VisitState : Type 0 where
  active complete : VisitState

abbrev pub Marks : Type 0
Marks = BTreeMap Ident VisitState

-- A search that returns `Some(path)` early is `err path`; otherwise it leaves marks and stack.
abbrev pub Search : Type 0
Search = Result (List Ident) (Marks × List Ident)

-- An active dependency closes a cycle with the stack.
unfoldable pub close_cycle : Ident → List Ident → Search
close_cycle d stack = elim (from_position d stack) [
  | none ↦ panic
  | some path ↦ err (path ++ d ∷ [])
]

-- The loop of `visit` over the dependencies; `rec` visits one that has no mark.
unfoldable pub visit_all :
    (Ident → Marks → List Ident → Search) → List Ident → Marks → List Ident → Search
visit_all rec [] marks stack = ok (marks, stack)
visit_all rec (d ∷ ds) marks stack = elim (get d marks) [
  | none ↦ rec d marks stack >>= λ s. visit_all rec ds s.0 s.1
  | some active ↦ close_cycle d stack
  | some complete ↦ visit_all rec ds marks stack
]

-- `stack.pop(); marks.insert(id, Complete)`.
abbrev pub leave : Ident → Marks × List Ident → Marks × List Ident
leave id s = (insert id complete s.0, drop_last s.1)

-- The fuel bounds the depth of the calls.
unfoldable pub visit : ℕ → WorkflowTopology → Ident → Marks → List Ident → Search
visit zero t id marks stack = out_of_fuel
visit (suc fuel) t id marks stack =
    visit_all (visit fuel t) (dependencies t id) (insert id active marks) (stack ++ id ∷ [])
    >>= λ s. ok (leave id s)

-- The loop of `cycle_path` over the tasks.
unfoldable pub visit_tasks :
    (Ident → Marks → List Ident → Search) → List Ident → Marks → List Ident → Search
visit_tasks rec [] marks stack = ok (marks, stack)
visit_tasks rec (id ∷ ids) marks stack = elim (get id marks) [
  | none ↦ rec id marks stack >>= λ s. visit_tasks rec ids s.0 s.1
  | some _ ↦ visit_tasks rec ids marks stack
]

-- `None` is `ok`, and `Some(path)` is `err path`. A call deeper than the number of tasks would
-- have visited a task twice, so the fuel suffices.
unfoldable pub cycle_path : WorkflowTopology → Result (List Ident) (Unit {0})
cycle_path t = visit_tasks (visit (length t.tasks) t) (task_ids t) [] [] >>= λ _. ok tt
