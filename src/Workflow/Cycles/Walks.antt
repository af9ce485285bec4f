-- ===== src/Workflow/Cycles/Walks.antt =====
-- The edges of the topology, its cycles, and what it means that it has none.
use graph_core.Base.{List}
use graph_core.Base.Walks
use graph_core.Core.Ident.{Ident}
use graph_core.Workflow.Topology.{WorkflowTopology, dependencies}

-- The second task is a prerequisite of the first.
abbrev pub Edge : WorkflowTopology → Ident → Ident → Type 0
Edge t = Walks.Edge (dependencies t)

abbrev pub IsCycle : WorkflowTopology → List Ident → Type 0
IsCycle t = Walks.IsCycle (dependencies t)

-- Every descent along prerequisites ends.
abbrev pub IsAcyclic : WorkflowTopology → Type 0
IsAcyclic t = Walks.IsAcyclic (dependencies t)
