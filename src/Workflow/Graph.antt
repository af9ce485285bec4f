-- ===== src/Workflow/Graph.antt =====
-- `WorkflowGraph`. A `&mut self` method returns the new graph beside its result.
pub mod Edges
pub mod Mutations
pub mod Guards
pub mod Batch
pub mod Completion
pub mod Reach
pub mod Replay
pub mod Rebuild
pub mod Canonical
use graph_core.Base.{
  ◌≡◌, Bool, true, not, List, [], ◌∷◌, ◌++◌, Option, none, some, unwrap_or, is_empty, filter, all,
  if◌then◌else◌,
}
use graph_core.Base.Results.{
  Result, ok, err, panic, out_of_fuel, ensure, ok_or, expect, ◌>>=◌, ◌>>◌,
}
use graph_core.Base.Order.{◌==◌}
use graph_core.Base.BTreeMap.{BTreeMap, BTreeSet, keys, get, insert, remove, contains_key}
use graph_core.Core.Ident.{Ident, ident_ord}
use graph_core.Core.Revision.{Revision, checked_next, revision_ord}
use graph_core.Core.Revision
use graph_core.Workflow.Topology.{Task, WorkflowTopology, contains_task, dependencies, cycle_path}
use graph_core.Workflow.Topology
use graph_core.Workflow.Facts.{CompletionRecord, ExecutionFacts, is_completed}
use graph_core.Workflow.Facts
use graph_core.Workflow.Mutation.{
  WorkflowMutation, add_task, add_dependency, MutationBatch, WorkflowMutationRecord,
  WorkflowGraphError, unknown_task, duplicate_task, duplicate_dependency, cycle,
  completed_task_mutation, task_already_completed, incomplete_prerequisite, revision_conflict,
  empty_mutation_batch, revision_exhausted, replay_revision_mismatch, from_mutations,
  is_empty_batch,
}

pub record WorkflowGraph : Type 0 where
  pub topology : WorkflowTopology
  pub facts : ExecutionFacts
  pub topology_revision : Revision
  pub mutation_log : List WorkflowMutationRecord

-- `WorkflowGraph::default()`.
unfoldable pub default : WorkflowGraph
default = record {
  topology = Topology.empty;
  facts = Facts.empty;
  topology_revision = Revision.zero;
  mutation_log = [];
}

abbrev Outcome : Type 0 → Type 0
Outcome = Result WorkflowGraphError

-- The loop of `complete`: the first prerequisite that is not completed is the error.
unfoldable pub check_prerequisites : ExecutionFacts → Ident → List Ident → Outcome (Unit {0})
check_prerequisites f task [] = ok tt
check_prerequisites f task (d ∷ ds) =
    if not (is_completed f d)
    then err (incomplete_prerequisite task d)
    else check_prerequisites f task ds

abbrev pub record_completion : ExecutionFacts → Ident → ExecutionFacts
record_completion f task = record {
  completed = insert task tt f.completed;
  completion_log = f.completion_log ++ record { task_id = task } ∷ [];
}

-- The guards of `complete`.
unfoldable pub check_completion : WorkflowGraph → Ident → Outcome (Unit {0})
check_completion g task = do
  ensure (contains_task g.topology task) (unknown_task task)
  ensure (not (is_completed g.facts task)) (task_already_completed task)
  check_prerequisites g.facts task (dependencies g.topology task)

unfoldable pub complete : WorkflowGraph → Ident → WorkflowGraph × Outcome CompletionRecord
complete g task = elim (check_completion g task) [
  | ok _ ↦ (record g { facts = record_completion g.facts task }, ok (record { task_id = task }))
  | err e ↦ (g, err e)
  | panic ↦ (g, panic)
  | out_of_fuel ↦ (g, out_of_fuel)
]

abbrev pub record_completed : WorkflowGraph → Ident → WorkflowGraph × Outcome CompletionRecord
record_completed = complete

-- `is_none_or(|dependencies| dependencies.iter().all(..))`.
unfoldable pub prerequisites_completed : WorkflowGraph → Ident → Bool
prerequisites_completed g task = elim (get task g.topology.dependencies) [
  | none ↦ true
  | some ds ↦ all (is_completed g.facts) (keys ds)
]

unfoldable pub ready_tasks : WorkflowGraph → List Ident
ready_tasks g =
    filter (prerequisites_completed g)
      (filter (λ id. not (is_completed g.facts id)) (keys g.topology.tasks))

abbrev pub with_tasks : WorkflowGraph → BTreeMap Ident Task → WorkflowGraph
with_tasks g ts = record g { topology = record (g.topology) { tasks = ts } }

abbrev pub with_dependencies : WorkflowGraph → BTreeMap Ident (BTreeSet Ident) → WorkflowGraph
with_dependencies g ds = record g { topology = record (g.topology) { dependencies = ds } }

-- The inserted edge is taken out again, with its owner's entry if nothing else is left in it.
unfoldable pub roll_back : WorkflowGraph → Ident → Ident → WorkflowGraph
roll_back g task dep =
    let ds = g.topology.dependencies in
    let rest = remove dep (unwrap_or [] (get task ds)) in
    with_dependencies g
      (if is_empty rest then remove task (insert task rest ds) else insert task rest ds)

-- `self.topology.dependencies.entry(task).or_default().insert(dep)`.
unfoldable pub insert_edge : WorkflowGraph → Ident → Ident → WorkflowGraph
insert_edge g task dep =
    let ds = g.topology.dependencies in
    with_dependencies g (insert task (insert dep tt (unwrap_or [] (get task ds))) ds)

unfoldable pub check_cycle : WorkflowGraph → Ident → Ident → WorkflowGraph × Outcome (Unit {0})
check_cycle g task dep = elim (cycle_path g.topology) [
  | ok _ ↦ (g, ok tt)
  | err path ↦ (roll_back g task dep, err (cycle path))
  | panic ↦ (g, panic)
  | out_of_fuel ↦ (g, out_of_fuel)
]

unfoldable pub apply_mutation :
    WorkflowGraph → WorkflowMutation → WorkflowGraph × Outcome (Unit {0})
apply_mutation g (add_task t) =
    if contains_task g.topology t.id
    then (g, err (duplicate_task t.id))
    else (with_tasks g (insert t.id t g.topology.tasks), ok tt)
apply_mutation g (add_dependency task dep) =
    if not (contains_task g.topology task)
    then (g, err (unknown_task task))
    else if not (contains_task g.topology dep)
    then (g, err (unknown_task dep))
    else if is_completed g.facts task
    then (g, err (completed_task_mutation task))
    else if contains_key dep (unwrap_or [] (get task g.topology.dependencies))
    then (insert_edge g task dep, err (duplicate_dependency task dep))
    else check_cycle (insert_edge g task dep) task dep

-- The loop of `apply_batch` over a candidate, which an error drops.
unfoldable pub apply_mutations : WorkflowGraph → List WorkflowMutation → Outcome WorkflowGraph
apply_mutations g [] = ok g
apply_mutations g (m ∷ ms) = let (g', r) = apply_mutation g m in r >>= λ _. apply_mutations g' ms

unfoldable pub reject_cycle : WorkflowTopology → Outcome (Unit {0})
reject_cycle t = elim (cycle_path t) [
  | ok _ ↦ ok tt
  | err path ↦ err (cycle path)
  | panic ↦ panic
  | out_of_fuel ↦ out_of_fuel
]

-- All of `apply_batch` before `*self = candidate`.
unfoldable pub prepare :
    WorkflowGraph → Revision → MutationBatch → Outcome (WorkflowGraph × WorkflowMutationRecord)
prepare g expected batch = do
  ensure (expected == g.topology_revision) (revision_conflict expected g.topology_revision)
  ensure (not (is_empty_batch batch)) empty_mutation_batch
  resulting ← ok_or (checked_next g.topology_revision) (revision_exhausted g.topology_revision)
  candidate ← apply_mutations g batch.mutations
  reject_cycle candidate.topology
  let r : WorkflowMutationRecord = record {
    base_revision = g.topology_revision;
    resulting_revision = resulting;
    mutations = batch.mutations;
  }
  ok (
    record candidate {
      topology_revision = resulting;
      mutation_log = candidate.mutation_log ++ r ∷ [];
    },
    r,
  )

unfoldable pub apply_batch :
    WorkflowGraph → Revision → MutationBatch → WorkflowGraph × Outcome WorkflowMutationRecord
apply_batch g expected batch = elim (prepare g expected batch) [
  | ok (candidate, r) ↦ (candidate, ok r)
  | err e ↦ (g, err e)
  | panic ↦ (g, panic)
  | out_of_fuel ↦ (g, out_of_fuel)
]

unfoldable pub replay_from : WorkflowGraph → List WorkflowMutationRecord → Outcome WorkflowGraph
replay_from g [] = ok g
replay_from g (r ∷ rs) = do
  ensure (r.base_revision == g.topology_revision)
      (revision_conflict r.base_revision g.topology_revision)
  expected ← ok_or (checked_next g.topology_revision) (revision_exhausted g.topology_revision)
  ensure (r.resulting_revision == expected) (replay_revision_mismatch expected r.resulting_revision)
  let applied = apply_batch g r.base_revision (from_mutations r.mutations)
  applied.1 >>= λ _. replay_from applied.0 rs

unfoldable pub replay : List WorkflowMutationRecord → Outcome WorkflowGraph
replay = replay_from default

unfoldable pub complete_all : WorkflowGraph → List CompletionRecord → Outcome WorkflowGraph
complete_all g [] = ok g
complete_all g (c ∷ cs) = let (g', r) = complete g c.task_id in r >>= λ _. complete_all g' cs

unfoldable pub replay_with_facts :
    List WorkflowMutationRecord → List CompletionRecord → Outcome WorkflowGraph
replay_with_facts records completions = replay records >>= λ g. complete_all g completions
