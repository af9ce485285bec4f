-- ===== src/Recovery/Durable/Restart.antt =====
-- Recovery after a restart: the store's state, the journal rebuilt from it, and the decision.
use graph_core.Base.{◌≡◌, ◌∙◌, ◌≢◌, some, Memᴰ, mem-filter, last_of_mem}
use graph_core.Base.Results.{ok}
use graph_core.Base.Order.{◌==◌, ==_refl}
use graph_core.Base.BTreeMap.{get}
use graph_core.Workflow.Graph.{WorkflowGraph}
use graph_core.Recovery.Model.{
  operation_ord, EffectIntent, non_idempotent, DispatchRecord, RecoveryDecision, execute,
  retry_same_operation,
}
use graph_core.Recovery.Journal.{DurableJournal}
use graph_core.Recovery.Decision.{classify_recovery}
use graph_core.Recovery.Decision.Safety.{never_repeats_after_dispatch}
use graph_core.Recovery.Durable.Facts.{RunId, run_ord}
use graph_core.Recovery.Durable.State.{DurableRunState, intent, dispatches, latest_dispatch}
use graph_core.Recovery.Durable.Store.{InMemoryDurableStore, from_durable_state}
use graph_core.Recovery.Durable.Store
use graph_core.Recovery.Durable.Replays.{Later}
use graph_core.Recovery.Durable.Agreement.{from_durable_state-Agrees}

has_latest :
    (s : DurableRunState) (d : DispatchRecord)
    → Memᴰ d s.dispatch_history
    → (y : DispatchRecord) × (latest_dispatch s d.operation_id ≡ some y)
unfolding latest_dispatch dispatches
has_latest s d m =
    let (y, e, _) = last_of_mem (dispatches s d.operation_id) (
      (mem-filter (λ x. x.operation_id == d.operation_id) d s.dispatch_history).1
        (m, ==_refl d.operation_id)) in
    (y, e)

-- For every run of a store that a client can reach, with a dispatch of an effect that may not be
-- repeated, the journal rebuilt from the run's state classifies the operation, and the decision
-- neither executes nor retries it.
pub restart_never_repeats :
    (w : WorkflowGraph) {store : InMemoryDurableStore} (run : RunId) (s : DurableRunState)
    (i : EffectIntent) (d : DispatchRecord)
    → Later Store.new store
    → get run store.runs ≡ some s
    → intent s d.operation_id ≡ some i
    → i.semantics ≡ non_idempotent
    → Memᴰ d s.dispatch_history
    → (j : DurableJournal) × (from_durable_state s ≡ ok j)
      × ((x : RecoveryDecision) × (classify_recovery w j d.operation_id ≡ ok x)
          × (x.action ≢ execute)
          × (x.action ≢ retry_same_operation))
restart_never_repeats w run s i d l e h n m =
    let (j, f, agrees) = from_durable_state-Agrees run s l e in
    let a = agrees d.operation_id in
    let (y, latest) = has_latest s d m in
    (
      j,
      f,
      never_repeats_after_dispatch w j d.operation_id i y (a.intent ∙ h) n
          (a.latest_dispatch ∙ latest),
    )
