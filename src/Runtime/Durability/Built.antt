-- ===== src/Runtime/Durability/Built.antt =====
-- What `build` and `start_run` make.
use graph_core.Base.{◌≡◌, refl, List, [], ◌∷◌, some, arith, filter}
use graph_core.Base.Order.{==_refl}
use graph_core.Base.Lookup.{find_by}
use graph_core.Base.BTreeMap.{get, insert}
use graph_core.Core.Ident.{Ident, ident_ord, trim, trim_end, trim_start, is_whitespace}
use graph_core.Core.Ident
use graph_core.Stream.Buffers.Lossless
use graph_core.Stream.Buffers.Coalescing
use graph_core.Stream.Buffers.Lossy
use graph_core.Workflow.Graph.{WorkflowGraph}
use graph_core.Recovery.Model.{operation_ord, attempt_ord}
use graph_core.Recovery.Journal.{DurableJournal}
use graph_core.Recovery.Journal
use graph_core.Recovery.Journal.Invariant.{new-IsValid}
use graph_core.Recovery.Durable.Facts.{RunId, run_ord, key_ord, StoreRevision, initial}
use graph_core.Recovery.Durable.State.{DurableRunState, is_cancelled, dispatches}
use graph_core.Recovery.Durable.State
use graph_core.Recovery.Durable.Store.{InMemoryDurableStore, create_run}
use graph_core.Recovery.Durable.Lineage.{new-Lineage}
use graph_core.Runtime.Config.{TaskConfig}
use graph_core.Runtime.State.{Runtime}
use graph_core.Runtime.Start.{Context, collect_configs, build, stream_id, start_run}
use graph_core.Runtime.Durability.Sound.{Holds, Sound}
use graph_core.Runtime.Pins.{required_of}
use graph_core.Runtime.Durability.Refusals.{Gives, Gives-bind, Gives-weaken}
use graph_core.Runtime.Durability.Readmission.{
  last_config, required_by, ConfigRefused, AllKnown, Collected, collect_configs-Gives,
}

-- The arguments are in place, each task has the last of its configurations, and nothing is
-- cancelled.
pub record Built (run_id : RunId) (w : WorkflowGraph) (context : Context)
    (configs : List (Ident × TaskConfig)) (j : DurableJournal) (s : InMemoryDurableStore)
    (revision : StoreRevision) (r : Runtime) : Type 0 where
  pub same_run : r.run_id ≡ run_id
  pub same_workflow : r.workflow ≡ w
  pub same_context : r.context ≡ context
  pub known : AllKnown w configs
  pub same_configs : (t : Ident) → get t r.task_configs ≡ last_config configs t
  pub same_journal : r.journal ≡ j
  pub same_store : r.store ≡ s
  pub same_revision : r.store_revision ≡ revision
  pub none_cancelled : r.cancelled ≡ []

pub build-Gives :
    (run_id : RunId) (w : WorkflowGraph) (context : Context) (configs : List (Ident × TaskConfig))
    (j : DurableJournal) (s : InMemoryDurableStore) (revision : StoreRevision)
    → Gives
        (ConfigRefused w configs)
        (Built run_id w context configs j s revision)
        (build run_id w context configs j s revision)
unfolding build get stream_id Ident.new trim trim_end trim_start is_whitespace Lossless.new
    Coalescing.new Lossy.new
build-Gives run_id w context configs j s revision =
    Gives-bind (ConfigRefused w configs) (Collected w configs [])
      (Built run_id w context configs j s revision) (collect_configs w configs []) _
      (collect_configs-Gives w configs [])
      (λ m (known, same). record {
        same_run = refl;
        same_workflow = refl;
        same_context = refl;
        known = known;
        same_configs = λ t. let e = same t in ground (arith, e, last_config configs t);
        same_journal = refl;
        same_store = refl;
        same_revision = refl;
        none_cancelled = refl;
      })

pub required_of-Built :
    (run_id : RunId) (w : WorkflowGraph) (context : Context) (configs : List (Ident × TaskConfig))
    (j : DurableJournal) (s : InMemoryDurableStore) (revision : StoreRevision) (r : Runtime)
    → Built run_id w context configs j s revision r
    → (t : Ident) → required_of r t ≡ required_by configs t
unfolding required_of
required_of-Built run_id w context configs j s revision r b t =
    rw (b.same_configs t, required_of) refl

Sound-of_Built :
    (run_id : RunId) (w : WorkflowGraph) (context : Context) (configs : List (Ident × TaskConfig))
    (j : DurableJournal) (s : InMemoryDurableStore) (revision : StoreRevision) (r : Runtime)
    → Built run_id w context configs j s revision r
    → Holds run_id s revision j []
    → Sound r
Sound-of_Built run_id w context configs j s revision r b h =
    rw (b.same_run, b.same_store, b.same_revision, b.same_journal, b.none_cancelled) h

new_run :
    (run_id : RunId) (s : InMemoryDurableStore) (revision : StoreRevision)
    → get run_id s.runs ≡ some (State.new run_id)
    → revision ≡ (State.new run_id).revision
    → Holds run_id s revision Journal.new []
unfolding get is_cancelled dispatches filter find_by
new_run run_id s revision there head = record {
  run = State.new run_id;
  stored = record {
    found = there;
    head = head;
    lineage = new-Lineage run_id;
    remembered = λ key ms revision e. cc;
  };
  facts = record {
    same_intents = λ op. refl;
    same_dispatches = λ a. refl;
    same_attempts = λ op. refl;
    same_outcomes = λ a. refl;
  };
  withdrawn = λ t. refl;
  keyed = λ t. refl;
  valid = new-IsValid;
  once = λ op i e n. cc;
}

-- What a new run starts from, and that it holds the invariant.
pub record Started (run_id : RunId) (w : WorkflowGraph) (r : Runtime) : Type 0 where
  pub sound : Sound r
  pub same_run : r.run_id ≡ run_id
  pub same_workflow : r.workflow ≡ w

-- A new run starts with the invariant in place, or a configuration names a task that the workflow
-- does not have.
pub start_run-Gives :
    (run_id : RunId) (w : WorkflowGraph) (context : Context) (configs : List (Ident × TaskConfig))
    → Gives (ConfigRefused w configs) (Started run_id w) (start_run run_id w context configs)
unfolding start_run create_run get insert
start_run-Gives run_id w context configs =
    let s : InMemoryDurableStore = record { runs = (run_id, State.new run_id) ∷ [] } in
    Gives-weaken (ConfigRefused w configs) (ConfigRefused w configs)
      (Built run_id w context configs Journal.new s initial) (Started run_id w)
      (build run_id w context configs Journal.new s initial) (λ _ h. h)
      (λ r b. record {
        sound =
            Sound-of_Built run_id w context configs Journal.new s initial r b
              (new_run run_id s initial (ground (arith, ==_refl run_id)) refl);
        same_run = b.same_run;
        same_workflow = b.same_workflow;
      })
      (build-Gives run_id w context configs Journal.new s initial)
