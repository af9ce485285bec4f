-- ===== src/Workflow/Graph/Rebuild.antt =====
-- `replay_with_facts` on the two logs of a graph rebuilds the graph.
use graph_core.Base.{◌≡◌, refl, sym, ap, ◌∙◌, subst, true, List, [], ◌∷◌, Memᴰ, arith}
use graph_core.Base.Results.{Result, ok, err, panic, out_of_fuel}
use graph_core.Core.Ident.{Ident}
use graph_core.Core.Revision.{Revision}
use graph_core.Workflow.Topology.{WorkflowTopology, contains_task, dependencies}
use graph_core.Workflow.Facts.{CompletionRecord}
use graph_core.Workflow.Mutation.{
  MutationBatch, from_mutations, WorkflowGraphError, WorkflowMutationRecord,
}
use graph_core.Workflow.Graph.{
  WorkflowGraph, default, prepare, apply_batch, complete, replay_from, replay, complete_all,
  replay_with_facts,
}
use graph_core.Workflow.Graph.Batch.{Committed, Batched, apply_batch-Batched}
use graph_core.Workflow.Graph.Completion.{Completed, complete_lem}
use graph_core.Workflow.Graph.Reach.{
  Reachable, start, batch, completion, IsValid, Reachable-IsValid, contains_task-Grows,
}
use graph_core.Workflow.Graph.Replay.{
  without_facts, prepare-without_facts, replay_one, replay_from-append, complete_all-append,
  complete_onto,
}

-- What `complete` reads of the topology for the tasks of the log is the same in `t'` as in `t`.
abbrev Agrees : WorkflowTopology → WorkflowTopology → List CompletionRecord → Type 0
Agrees t t' cs =
    (id : Ident)
    → Memᴰ (record { task_id = id }) cs
    → (contains_task t id ≡ true → contains_task t' id ≡ true)
      × (dependencies t' id ≡ dependencies t id)

first_completion :
    (h g : WorkflowGraph) (c : CompletionRecord) (cs : List CompletionRecord)
    → complete_all h (c ∷ cs) ≡ ok g
    → (h' : WorkflowGraph) × (c' : CompletionRecord) × (complete h c.task_id ≡ (h', ok c'))
      × (complete_all h' cs ≡ ok g)
unfolding complete_all
first_completion h g c cs e = by_result (complete h c.task_id) refl
  where
    by_result :
        (p : WorkflowGraph × Result WorkflowGraphError CompletionRecord)
        → complete h c.task_id ≡ p
        → (h' : WorkflowGraph) × (c' : CompletionRecord) × (complete h c.task_id ≡ (h', ok c'))
          × (complete_all h' cs ≡ ok g)
    by_result (h', ok c') q = (h', c', q, rw (q, complete_all) at e)
    by_result (h', err x) q = absurd (ground arith)
    by_result (h', panic) q = absurd (ground arith)
    by_result (h', out_of_fuel) q = absurd (ground arith)

complete_all_onto :
    (t : WorkflowTopology) (h k g : WorkflowGraph) (cs : List CompletionRecord)
    → h.topology ≡ t
    → Agrees t k.topology cs
    → complete_all h cs ≡ ok g
    → complete_all (record k { facts = h.facts }) cs ≡ ok (record k { facts = g.facts })
unfolding complete_all
complete_all_onto t h k g [] e a r = ground arith
complete_all_onto t h k g (c ∷ cs) e a r =
    let (h', c', first, rest) = first_completion h g c cs r in
    let (more, same) = a c.task_id (Memᴰ.head refl) in
    let (onto, kept) =
      complete_onto h k h' c.task_id c'
        (subst (λ u. contains_task u c.task_id ≡ true → contains_task k.topology c.task_id ≡ true)
          (sym e) more)
        (subst (λ u. dependencies k.topology c.task_id ≡ dependencies u c.task_id) (sym e) same)
        first in
    rw (onto, complete_all)
      (complete_all_onto t h' k g cs (kept ∙ e) (λ id m. a id (Memᴰ.tail m)) rest)

-- The mutation log leads to the graph without its facts, and the completion log from there to it.
record Rebuilds (g : WorkflowGraph) : Type 0 where
  mutations : replay g.mutation_log ≡ ok (without_facts g)
  completions : complete_all (without_facts g) g.facts.completion_log ≡ ok g

default-Rebuilds : Rebuilds default
unfolding default replay replay_from complete_all
default-Rebuilds = record { mutations = refl; completions = refl }

batch_replays :
    (g c : WorkflowGraph) (expected : Revision) (b : MutationBatch) (r : WorkflowMutationRecord)
    → prepare g expected b ≡ ok (c, r)
    → Committed g expected b c r
    → replay g.mutation_log ≡ ok (without_facts g)
    → replay c.mutation_log ≡ ok (without_facts c)
unfolding replay from_mutations
batch_replays g c expected b r e k before =
    let again : prepare (without_facts g) r.base_revision (from_mutations r.mutations)
        ≡ ok (without_facts c, r) =
      ground
        (arith, prepare-without_facts g c expected b r e, k.mutations, k.base, k.was_current) in
    ap replay k.log
    ∙ (replay_from-append default (without_facts g) g.mutation_log (r ∷ []) before
        ∙ replay_one (without_facts g) (without_facts c) r k.base k.next_revision k.resulting again)

batch_completes :
    (g c : WorkflowGraph) (expected : Revision) (b : MutationBatch) (r : WorkflowMutationRecord)
    → IsValid g
    → Committed g expected b c r
    → complete_all (without_facts g) g.facts.completion_log ≡ ok g
    → complete_all (without_facts c) c.facts.completion_log ≡ ok c
batch_completes g c expected b r v k before =
    let agrees : Agrees g.topology c.topology g.facts.completion_log = λ id m. (
      contains_task-Grows g.facts g.topology c.topology id k.grows,
      k.grows.history_kept id ((v.logged id).1 m),
    ) in
    let moved =
      complete_all_onto g.topology (without_facts g) c g g.facts.completion_log refl agrees
        before in
    ground (arith, moved, k.facts)

after_batch-Rebuilds :
    (g : WorkflowGraph) (expected : Revision) (b : MutationBatch)
    → IsValid g
    → Rebuilds g
    → Rebuilds (apply_batch g expected b).0
unfolding apply_batch
after_batch-Rebuilds g expected b v p =
    by_result (prepare g expected b) refl (apply_batch-Batched g expected b v.dag)
  where
    by_result :
        (r : Result WorkflowGraphError (WorkflowGraph × WorkflowMutationRecord))
        → prepare g expected b ≡ r
        → Batched g expected b (apply_batch g expected b)
        → Rebuilds (apply_batch g expected b).0
    by_result (ok (c, r)) e k =
        let committed : Committed g expected b c r = rw (e, apply_batch) at k in
        rw (e, apply_batch)
          (record {
            mutations = batch_replays g c expected b r e committed p.mutations;
            completions = batch_completes g c expected b r v committed p.completions;
          })
    by_result (err x) e k = rw (e, apply_batch) p
    by_result panic e k = rw (e, apply_batch) p
    by_result out_of_fuel e k = rw (e, apply_batch) p

after_completion-Rebuilds :
    (g : WorkflowGraph) (id : Ident) → Rebuilds g → Rebuilds (complete g id).0
unfolding complete_all
after_completion-Rebuilds g id p = by_result (complete g id) refl (complete_lem g id)
  where
    by_result :
        (r : WorkflowGraph × Result WorkflowGraphError CompletionRecord)
        → complete g id ≡ r
        → Completed g id r
        → Rebuilds (complete g id).0
    by_result (g', ok c) e (_, _, k) = rw e (record {
      mutations = ground (arith, k, p.mutations);
      completions = ground (
        arith,
        k,
        complete_all-append (without_facts g) g g.facts.completion_log
            (record { task_id = id } ∷ []) p.completions,
      );
    })
    by_result (g', err x) e (k, _) = rw e (subst Rebuilds (sym k) p)
    by_result (g', panic) e k = absurd k
    by_result (g', out_of_fuel) e k = absurd k

Reachable-Rebuilds : {g : WorkflowGraph} → Reachable g → Rebuilds g
Reachable-Rebuilds start = default-Rebuilds
Reachable-Rebuilds (batch {g} expected b r) =
    after_batch-Rebuilds g expected b (Reachable-IsValid r) (Reachable-Rebuilds r)
Reachable-Rebuilds (completion {g} id r) = after_completion-Rebuilds g id (Reachable-Rebuilds r)

-- For every graph that a client can reach, whatever the order of batches, completions and refused
-- calls was, replaying its mutation log and then its completion log gives the same graph: topology,
-- facts, revision and logs.
pub replay_with_facts_rebuilds :
    {g : WorkflowGraph}
    → Reachable g
    → replay_with_facts g.mutation_log g.facts.completion_log ≡ ok g
unfolding replay_with_facts
replay_with_facts_rebuilds r =
    let p = Reachable-Rebuilds r in rw (p.mutations, replay_with_facts) p.completions
