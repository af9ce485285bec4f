-- ===== src/Runtime/Durability/Restart.antt =====
-- `restore_run` on the store that a runtime leaves behind.
use graph_core.Base.{ℕ, ◌≡◌, sym, subst, ◌∙◌, ◌⊎◌, inl, inr, List}
use graph_core.Base.BTreeMap.{contains_key}
use graph_core.Core.Ident.{Ident, ident_ord}
use graph_core.Workflow.Graph.{WorkflowGraph}
use graph_core.Recovery.Model.{OperationId, operation_ord, attempt_ord}
use graph_core.Recovery.Journal.{DurableJournal}
use graph_core.Recovery.Journal.Invariant.{IsValid, Leaves}
use graph_core.Recovery.Durable.Facts.{run_ord, AttemptAdmission}
use graph_core.Recovery.Durable.State.{DurableRunState, is_cancelled, cancellations, intents}
use graph_core.Recovery.Durable.State
use graph_core.Recovery.Durable.Store.{load_run}
use graph_core.Recovery.Durable.Agreement.{SameFacts, rebuilds}
use graph_core.Runtime.Config.{TaskConfig}
use graph_core.Runtime.State.{Runtime, TaskAttempt, RuntimeError}
use graph_core.Runtime.Start.{Context, restore_cancelled, restore_attempts, build, restore_run}
use graph_core.Runtime.Durability.Commits.{StoredRun}
use graph_core.Runtime.Durability.Sound.{Sound}
use graph_core.Runtime.Durability.Refusals.{Required, Gives, Gives-bind, Gives-weaken}
use graph_core.Runtime.Durability.Readmission.{
  required_by, ConfigRefused, AttemptRefused, AllKnown, Readmitted, restore_attempts-Gives,
}
use graph_core.Runtime.Durability.Built.{Built, build-Gives, required_of-Built}
use graph_core.Runtime.Durability.Rebuilt.{
  from_durable_state-Leaves, restored_cancelled, SameAnswers, same_answers, once_again,
}

-- What refuses a restart: a configured task that is not in the workflow, or an earlier attempt
-- with a capability that is missing or is not the one configured or admitted.
abbrev pub RestoreRefused :
    WorkflowGraph
    → Context
    → List (Ident × TaskConfig)
    → List AttemptAdmission
    → RuntimeError
    → Type 0
RestoreRefused w context configs as_ e =
    ConfigRefused w configs e ⊎ AttemptRefused context (required_by configs) as_ e

-- The restarted runtime has the invariant, the workflow it was given and the old store; about every
-- effect its journal answers as the old one did, the same tasks are cancelled, and the attempts in
-- the store are there again with capabilities that are what was configured and admitted.
pub record Restored (r : Runtime) (w : WorkflowGraph) (context : Context)
    (configs : List (Ident × TaskConfig)) (as_ : List AttemptAdmission) (r' : Runtime)
    : Type 0 where
  pub sound : Sound r'
  pub answers : (op : OperationId) → SameAnswers r.journal r'.journal op
  pub cancelled : (t : Ident) → contains_key t r'.cancelled ≡ contains_key t r.cancelled
  pub same_store : r'.store ≡ r.store
  pub same_workflow : r'.workflow ≡ w
  pub same_context : r'.context ≡ context
  pub known : AllKnown w configs
  pub readmitted : Readmitted context (required_by configs) as_ r'.attempts

module _ (r : Runtime) (w : WorkflowGraph) (context : Context) (configs : List (Ident × TaskConfig))
    (sound : Sound r) (k : DurableJournal) (valid : IsValid k) (facts : SameFacts sound.run k) where
  -- The last step of `restore_run`.
  Restored-from :
      (b : Runtime) (ts : List TaskAttempt) (n : ℕ)
      → Built r.run_id w context configs k r.store sound.run.revision b
      → Readmitted context (required_by configs) (State.attempts sound.run) ts
      → Restored r w context configs (State.attempts sound.run) (record b {
        cancelled = restore_cancelled (cancellations sound.run) b.cancelled;
        attempts = ts;
        next_attempt_number = n;
      })
  Restored-from b ts n built readmitted =
      let cancelled : (t : Ident)
          → contains_key t (restore_cancelled (cancellations sound.run) b.cancelled)
            ≡ is_cancelled sound.run t =
        λ t. rw (built.none_cancelled) (restored_cancelled sound.run sound.keyed t) in
      record {
        sound = record {
          run = sound.run;
          stored =
              rw (built.same_run, built.same_store, built.same_revision)
                (subst (λ v. StoredRun r.run_id r.store v sound.run) sound.stored.head
                  sound.stored);
          facts = rw (built.same_journal) facts;
          withdrawn = cancelled;
          keyed = sound.keyed;
          valid = rw (built.same_journal) valid;
          once =
              rw (built.same_journal) (
                once_again sound.run r.journal k sound.stored.lineage sound.facts facts sound.once);
        };
        answers =
            rw (built.same_journal)
              (same_answers sound.run r.journal k sound.stored.lineage sound.facts facts);
        cancelled = λ t. cancelled t ∙ sym (sound.withdrawn t);
        same_store = built.same_store;
        same_workflow = built.same_workflow;
        same_context = built.same_context;
        known = built.known;
        readmitted = readmitted;
      }

  -- The attempts of the store, captured again.
  readmission :
      (b : Runtime)
      → Built r.run_id w context configs k r.store sound.run.revision b
      → (as_ : List AttemptAdmission)
      → Gives
          (AttemptRefused context (required_by configs) as_)
          (Readmitted context (required_by configs) as_)
          (restore_attempts b as_)
  readmission b built as_ =
      subst
        (λ (p : Context × (Ident → Required)).
          Gives (AttemptRefused p.0 p.1 as_) (Readmitted p.0 p.1 as_) (restore_attempts b as_))
        (λ i. (
          built.same_context i,
          λ t.
              required_of-Built r.run_id w context configs k r.store sound.run.revision b built t i,
        ))
        (restore_attempts-Gives b as_)

pub restore_run_lem :
    (r : Runtime) (w : WorkflowGraph) (context : Context) (configs : List (Ident × TaskConfig))
    (sound : Sound r)
    → let as_ = State.attempts sound.run in
      Gives
        (RestoreRefused w context configs as_)
        (Restored r w context configs as_)
        (restore_run r.run_id w context configs r.store)
unfolding restore_run load_run
restore_run_lem r w context configs sound =
    let s = sound.run in
    let (k, e, facts) = rebuilds s sound.stored.lineage in
    let as_ = State.attempts s in
    let E = RestoreRefused w context configs as_ in
    let P = Restored r w context configs as_ in
    let B = Built r.run_id w context configs k r.store s.revision in
    let A = Readmitted context (required_by configs) as_ in
    rw (sound.stored.found, restore_run)
      (rw e (
        Gives-bind E B P (build r.run_id w context configs k r.store s.revision) _
          (Gives-weaken (ConfigRefused w configs) E B B
            (build r.run_id w context configs k r.store s.revision) (λ _. inl) (λ _ b. b)
            (build-Gives r.run_id w context configs k r.store s.revision))
          (λ b built.
            Gives-bind E A P (restore_attempts b as_) _
              (Gives-weaken (AttemptRefused context (required_by configs) as_) E A A
                (restore_attempts b as_) (λ _. inr) (λ _ h. h)
                (readmission r w context configs sound k
                  (subst Leaves e (from_durable_state-Leaves s)) facts b built as_))
              (λ ts readmitted.
                Restored-from r w context configs sound k
                  (subst Leaves e (from_durable_state-Leaves s)) facts b ts _ built readmitted))))
