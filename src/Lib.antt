-- ===== src/Lib.antt =====
-- Kernis: a model of the execution core and what is proved of it.
--
-- The program is a set of Rust crates. `core` has the identifiers and revisions that all others
-- use. `workflow-graph` keeps a versioned graph of tasks apart from the facts of their completion:
-- planners change it by atomic batches, and a scheduler reads the ready tasks and completes them.
-- `workflow-recovery` keeps durable facts on external effects (intents, dispatches, outcomes) and
-- decides from them and the workflow graph what to do with each effect after a restart.
-- `execution-stream` numbers the items of a stream, tracks their continuity and buffers them under
-- three bounded policies. `capability-graph` resolves the dependencies of capabilities and publishes
-- them in scopes. `runtime-core` joins all of these: it starts tasks with the capabilities that they
-- require, commits every effect fact to the durable store before its journal shows it, schedules
-- ready tasks, recovers effects and restarts a run from its store.
--
-- Files and sources:
--   Base           what the Rust standard library gives: Result, BTreeMap, slices, u64, orders
--   Core           crates/core/src/lib.rs: `Id` is `Ident`, with `Id::new`; `Revision`
--   Stream         crates/execution-stream/src/lib.rs: Item (`Sequence`, `StreamItem`), Sequencer
--                  (`StreamSequencer`), Tracker (`SequenceTracker`), Buffers (`LosslessBuffer`,
--                  `LossyBuffer`, `CoalescingBuffer`); Delivery joins sequencer and tracker
--   Workflow       crates/workflow-graph/src/lib.rs: Topology (`WorkflowTopology`), Facts
--                  (`ExecutionFacts`), Mutation (batches, records, errors), Graph (`WorkflowGraph`)
--   Workflow.Cycles   the depth first search of `cycle_path`: walks, marks, search, verdict
--   Workflow.Graph.*  the laws of mutations, batches, completion, reachability and replay
--   Recovery.Model, Journal, Decision   crates/workflow-recovery/src/model.rs, journal.rs and
--                  recovery.rs; Journal.Invariant, Journal.History and Journal.Dispatch hold the
--                  lineage of the facts, Decision.Safety what a decision rests on
--   Recovery.Durable  crates/workflow-recovery/src/durable.rs: Facts (identities, requests, errors),
--                  State (`DurableRunState`), Mutation (`apply_mutation`), Store
--                  (`InMemoryDurableStore`, and `DurableJournal::from_durable_state` of journal.rs).
--                  Accepted says what each accepted mutation found and changed; Refusals, Commits
--                  and Replays are about `commit`; Runs carries what mutations keep through all
--                  calls of the store, for Cancellation and Lineage; Rebuild, Agreement and Restart lead from the
--                  run's state over the journal to the recovery decision
--   Capability     crates/capability-graph/src: Definition and Generation (definition.rs), Resolver
--                  (resolver.rs: `CapabilityGraph`, `resolve`, `validate_candidate`), Entry (runtime.rs:
--                  handles and errors). Under Resolver: Construction, Invariant and Search follow the
--                  visit, Outcome and Acceptance say what it decides, Registration and Admission
--                  are about changes of the graph. Of runtime.rs: Scope (`Scope`, its states and
--                  lookups), Checks (what a publication is checked against), Publish (`publish`,
--                  `withdraw`) with Guards, Visibility and Publication below it, and Teardown
--                  (`teardown`, and the order in which entries are dropped)
--   Runtime        crates/runtime-core/src/lib.rs: Config (`TaskConfig`), State (`Runtime`, attempts,
--                  events, errors), Action (the monad of its methods), Commit (`commit_durable` and
--                  the methods that persist a fact), Pins (`capture_capability_pins`), Attempts
--                  (`begin_attempt`), Events (the three streams), Effects (`dispatch_effect`,
--                  `recover`, `cancel_task`), Step (`step`, `run_until_blocked`), Start (`start_run`,
--                  `restore_run`)
--   Runtime.Durability   that journal and cancelled tasks are those of the store: Commits, Persists
--                  and Follows for one fact, Sound for the invariant, Calm, Attempts and Capture for
--                  what leaves the facts alone, Refusals for what refuses a capture, Endings and
--                  Finishing for a completion and its announcement, Effects, Dispatch, Recovery and
--                  Cancelling for the methods, Scheduling, Completing, Ensuring, TaskSteps, Steps and
--                  Rounds for the scheduler, Built, Readmission, Rebuilt, Restart and Reachable for
--                  whole runs
--   Runtime.Delivery   drains, and the retry of a retained announcement
--   Tests          beside each part: runs of the code and the results at concrete inputs
--
-- How state is modelled. A method with `&mut self` takes the old value and returns the new one
-- beside its result; where every error leaves the value as it was, it returns the new value in
-- `ok`. Errors, a failed `expect` and fuel that ran out are the constructors `err`, `panic` and
-- `out_of_fuel` of `Result`. A `BTreeMap` is the list of its entries, sorted by key by `insert`, a
-- `BTreeSet` a map to `Unit`, and keys are compared as the derived `Ord` compares them. A string is
-- the list of its code points; `trim` uses the white space of Unicode. A `u64` is a natural number
-- with `checked_add` written out. A `VecDeque` is a list with its front first.
--
-- The runtime. A method of `Runtime` is a function of the state to the new state and a result, so
-- what it wrote before it failed stays written. The scope behind the capability context is shared
-- with code outside the runtime, so the field `context` is only what it answers at present, and it
-- may change between two calls. The value inside a capability is left out, since nothing modelled
-- looks at it.
--
-- Scopes. The states of all scopes under one topology lock are one store, and a scope is the key of
-- its state with those of its ancestors. The two parts of `publish` that hold the lock are one step
-- each; what runs between them may be anything. Which children are alive is an argument.
--
-- Fuel. The cycle search of the workflow graph gets the number of tasks, that of the resolver one
-- more than the number of definitions: a deeper chain of calls would visit a node that is already
-- marked. The loop of `run_until_blocked` gets one round more than there are tasks, since each round
-- but the last completes one. The walk below a scope gets one level more than there are keys,
-- since a child has a greater key than its parent. A drain gets one pop more than there are items,
-- and `decimal` 20 digits, which is the length of 2^64.
--
-- Not modelled: the `Display` texts and the getters that only read a field; the conversions into
-- `MutationBatch`; the contexts and the reactive parts of `capability-graph`; the crate
-- `graph-lab`; the values in capabilities and their destructors; memory and the cost of copies.
pub mod Base
pub mod Core
pub mod Stream
pub mod Workflow
pub mod Recovery
pub mod Capability
pub mod Runtime
