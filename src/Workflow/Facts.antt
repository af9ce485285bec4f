-- ===== src/Workflow/Facts.antt =====
-- `CompletionRecord` and `ExecutionFacts`.
use graph_core.Base.{Bool, List, []}
use graph_core.Base.BTreeMap.{BTreeSet, keys, contains_key}
use graph_core.Core.Ident.{Ident, ident_ord}

pub record CompletionRecord : Type 0 where
  pub task_id : Ident

pub record ExecutionFacts : Type 0 where
  pub completed : BTreeSet Ident
  pub completion_log : List CompletionRecord

abbrev pub empty : ExecutionFacts
empty = record { completed = []; completion_log = [] }

unfoldable pub completed_tasks : ExecutionFacts → List Ident
completed_tasks f = keys f.completed

unfoldable pub is_completed : ExecutionFacts → Ident → Bool
is_completed f task = contains_key task f.completed
