-- ===== src/Workflow/Mutation.antt =====
-- `WorkflowMutation`, `MutationBatch`, `WorkflowMutationRecord` and `WorkflowGraphError`.
use graph_core.Base.{ℕ, Bool, List, [], ◌∷◌, ◌++◌, length, is_empty}
use graph_core.Core.Ident.{Ident}
use graph_core.Core.Revision.{Revision}
use graph_core.Workflow.Topology.{Task}

pub data WorkflowMutation : Type 0 where
  add_task : Task → WorkflowMutation
  add_dependency : Ident → Ident → WorkflowMutation

pub record MutationBatch : Type 0 where
  pub mutations : List WorkflowMutation

unfoldable pub new : MutationBatch
new = record { mutations = [] }

unfoldable pub from_mutations : List WorkflowMutation → MutationBatch
from_mutations ms = record { mutations = ms }

unfoldable pub push : MutationBatch → WorkflowMutation → MutationBatch
push b m = record { mutations = b.mutations ++ m ∷ [] }

unfoldable pub len : MutationBatch → ℕ
len b = length b.mutations

unfoldable pub is_empty_batch : MutationBatch → Bool
is_empty_batch b = is_empty b.mutations

pub record WorkflowMutationRecord : Type 0 where
  pub base_revision : Revision
  pub resulting_revision : Revision
  pub mutations : List WorkflowMutation

pub data WorkflowGraphError : Type 0 where
  unknown_task : Ident → WorkflowGraphError
  duplicate_task : Ident → WorkflowGraphError
  duplicate_dependency : Ident → Ident → WorkflowGraphError
  cycle : List Ident → WorkflowGraphError
  completed_task_mutation : Ident → WorkflowGraphError
  task_already_completed : Ident → WorkflowGraphError
  incomplete_prerequisite : Ident → Ident → WorkflowGraphError
  revision_conflict : Revision → Revision → WorkflowGraphError
  empty_mutation_batch : WorkflowGraphError
  revision_exhausted : Revision → WorkflowGraphError
  replay_revision_mismatch : Revision → Revision → WorkflowGraphError
