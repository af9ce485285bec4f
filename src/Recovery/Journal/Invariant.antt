-- ===== src/Recovery/Journal/Invariant.antt =====
-- The lineage of the journal's facts: intents own tasks, dispatches have intents, outcomes have
-- dispatches, and the attempts of an operation are its dispatches.
use graph_core.Base.{
  ◌≡◌, sym, ap, subst, ◌↔◌, ◌⊎◌, inl, inr, true, false, [], ◌∷◌, ◌++◌, none, some, if_pos, if_neg,
  Memᴰ, Memᴰ-concat, arith, Bool-cases, Option-cases, if◌then◌else◌,
}
use graph_core.Base.Results.{Result, ok, err, panic, out_of_fuel}
use graph_core.Base.Order.{◌==◌, ==_iff}
use graph_core.Base.BTreeMap.{get, insert, get-insert, contains_key}
use mathlib.Core.List.Memᴰ
use graph_core.Core.Ident.{Ident, ident_ord}
use graph_core.Recovery.Model.{
  OperationId, AttemptId, operation_ord, attempt_ord, EffectIntent, DispatchRecord, OutcomeRecord,
  KnownEffectOutcome-discrete,
}
use graph_core.Recovery.Journal.{
  DurableJournal, JournalError, new, attempts, persist_intent, persist_dispatch, persist_outcome,
  settle_outcome,
}

pub record IsValid (j : DurableJournal) : Type 0 where
  pub owner :
      (op : OperationId) (i : EffectIntent)
      → get op j.intents ≡ some i
      → (i.operation_id ≡ op) × (get i.task_id j.task_operations ≡ some op)
  pub owned :
      (task : Ident) (op : OperationId)
      → get task j.task_operations ≡ some op
      → (i : EffectIntent) × (get op j.intents ≡ some i) × (i.task_id ≡ task)
  pub dispatched :
      (a : AttemptId) (d : DispatchRecord)
      → get a j.dispatches ≡ some d
      → (d.attempt_id ≡ a)
        × (contains_key d.operation_id j.intents ≡ true)
        × Memᴰ a (attempts j d.operation_id)
  pub attempted :
      (op : OperationId) (a : AttemptId)
      → Memᴰ a (attempts j op)
      → (d : DispatchRecord) × (get a j.dispatches ≡ some d) × (d.operation_id ≡ op)
  pub settled :
      (a : AttemptId) (o : OutcomeRecord)
      → get a j.outcomes ≡ some o
      → (o.attempt_id ≡ a)
        × ((d : DispatchRecord) × (get a j.dispatches ≡ some d) × (d.operation_id ≡ o.operation_id))

pub new-IsValid : IsValid new
unfolding get
new-IsValid = record {
  owner = λ op i h. cc;
  owned = λ t op h. cc;
  dispatched = λ a d h. cc;
  attempted = λ op a m. absurd (Memᴰ.not-nil m);
  settled = λ a o h. cc;
}

-- The journal that an accepted update leaves is valid.
abbrev pub Leaves : Result JournalError DurableJournal → Type 0
Leaves (ok j) = IsValid j
Leaves (err e) = Unit
Leaves panic = ⊥
Leaves out_of_fuel = ⊥

admit_intent :
    (j : DurableJournal) (x : EffectIntent)
    → IsValid j
    → get x.operation_id j.intents ≡ none
    → get x.task_id j.task_operations ≡ none
    → IsValid (record j {
      task_operations = insert x.task_id x.operation_id j.task_operations;
      intents = insert x.operation_id x j.intents;
    })
admit_intent j x v new_op new_task = record {
  owner = λ op i h. ground (
    arith,
    get-insert op x.operation_id x j.intents,
    get-insert i.task_id x.task_id x.operation_id j.task_operations,
    ==_iff x.operation_id op,
    ==_iff x.task_id i.task_id,
    v.owner op i,
  );
  owned = λ t op h. by_task t op h (Bool-cases (x.task_id == t));
  dispatched = λ a d h.
      let (p, q, r) = v.dispatched a d h in
      (p, ground (arith, q, get-insert d.operation_id x.operation_id x j.intents), r);
  attempted = v.attempted;
  settled = v.settled;
}
  where
    by_task :
        (t : Ident) (op : OperationId)
        → get t (insert x.task_id x.operation_id j.task_operations) ≡ some op
        → ((x.task_id == t) ≡ true) ⊎ ((x.task_id == t) ≡ false)
        → (i : EffectIntent) × (get op (insert x.operation_id x j.intents) ≡ some i)
          × (i.task_id ≡ t)
    by_task t op h (inl e) = (
      x,
      ground (
        arith,
        get-insert t x.task_id x.operation_id j.task_operations,
        get-insert op x.operation_id x j.intents,
        ==_iff x.operation_id op,
      ),
      (==_iff x.task_id t).0 e,
    )
    by_task t op h (inr e) =
        let (i, p, q) =
          v.owned t op (ground (arith, get-insert t x.task_id x.operation_id j.task_operations)) in
        (
          i,
          ground (arith, get-insert op x.operation_id x j.intents, ==_iff x.operation_id op, p),
          q,
        )

pub persist_intent-Leaves :
    (j : DurableJournal) (x : EffectIntent) → IsValid j → Leaves (persist_intent j x)
unfolding persist_intent
persist_intent-Leaves j x v = elim (Option-cases (get x.operation_id j.intents)) [
  | inr (i, e) ↦ rw (e, persist_intent) tt
  | inl e ↦ elim (Option-cases (get x.task_id j.task_operations)) [
    | inr (op, k) ↦ rw (e, k, persist_intent) tt
    | inl k ↦ rw (e, k, persist_intent) (admit_intent j x v e k)
  ]
]

-- The attempts after a dispatch: the new one comes last among those of its operation.
pub attempts-dispatch :
    (j : DurableJournal) (x : DispatchRecord) (op : OperationId)
    → attempts
        (record j {
          operation_attempts =
              insert x.operation_id
                (attempts j x.operation_id ++ x.attempt_id ∷ [])
                j.operation_attempts;
          dispatches = insert x.attempt_id x j.dispatches;
        })
        op
      ≡ (if x.operation_id == op
          then attempts j x.operation_id ++ x.attempt_id ∷ []
          else attempts j op)
attempts-dispatch j x op = ground (
  arith,
  get-insert op x.operation_id (attempts j x.operation_id ++ x.attempt_id ∷ [])
      j.operation_attempts,
)

module _ (j : DurableJournal) (x : DispatchRecord) (v : IsValid j)
    (known : contains_key x.operation_id j.intents ≡ true)
    (fresh : get x.attempt_id j.dispatches ≡ none) where
  abbrev after_dispatch : DurableJournal
  after_dispatch = record j {
    operation_attempts =
        insert x.operation_id (attempts j x.operation_id ++ x.attempt_id ∷ []) j.operation_attempts;
    dispatches = insert x.attempt_id x j.dispatches;
  }

  mem_attempts-dispatch :
      (op : OperationId) (a : AttemptId)
      → Memᴰ a (attempts after_dispatch op)
        ↔ (Memᴰ a (attempts j op) ⊎ (a ≡ x.attempt_id) × (x.operation_id ≡ op))
  mem_attempts-dispatch op a = elim (Bool-cases (x.operation_id == op)) [
    | inl e ↦
        let same = (==_iff x.operation_id op).0 e in
        let last = Memᴰ-concat a x.attempt_id (attempts j x.operation_id) in
        let now : attempts after_dispatch op ≡ attempts j x.operation_id ++ x.attempt_id ∷ [] =
          ground (arith, attempts-dispatch j x op, e) in
        rw now (
          λ m. elim (last.0 m) [
            | inl old ↦ inl (subst (λ o. Memᴰ a (attempts j o)) same old)
            | inr new_ ↦ inr (new_, same)
          ],
          λ s. last.1 (elim s [
            | inl old ↦ inl (subst (λ o. Memᴰ a (attempts j o)) (sym same) old)
            | inr (new_, _) ↦ inr new_
          ]),
        )
    | inr e ↦
        let now : attempts after_dispatch op ≡ attempts j op =
          ground (arith, attempts-dispatch j x op, e) in
        rw now (
          inl,
          λ s. elim s [
            | inl old ↦ old
            | inr (_, same) ↦ absurd (ground (arith, ==_iff x.operation_id op))
          ],
        )
  ]

  get-dispatch :
      (a : AttemptId)
      → get a after_dispatch.dispatches ≡ (if x.attempt_id == a then some x else get a j.dispatches)
  get-dispatch a = get-insert a x.attempt_id x j.dispatches

  admit_dispatch : IsValid after_dispatch
  admit_dispatch = record {
    owner = v.owner;
    owned = v.owned;
    dispatched = λ a d h. elim (Bool-cases (x.attempt_id == a)) [
      | inl e ↦
          let here : x ≡ d = ground (arith, get-dispatch a, e) in
          let same = (==_iff x.attempt_id a).0 e in
          (
            ground (arith, here, same),
            ground (arith, here, known),
            (mem_attempts-dispatch d.operation_id a).1
                (inr (sym same, ap (λ r. r.operation_id) here)),
          )
      | inr e ↦
          let (p, q, r) = v.dispatched a d (ground (arith, get-dispatch a, e)) in
          (p, q, (mem_attempts-dispatch d.operation_id a).1 (inl r))
    ];
    attempted = λ op a m. elim ((mem_attempts-dispatch op a).0 m) [
      | inl old ↦
          let (d, p, q) = v.attempted op a old in
          (d, ground (arith, get-dispatch a, ==_iff x.attempt_id a, p, fresh), q)
      | inr (e, same) ↦ (x, ground (arith, get-dispatch a, ==_iff x.attempt_id a, e), same)
    ];
    settled = λ a o h.
        let (p, (d, q, r)) = v.settled a o h in
        (p, (d, ground (arith, get-dispatch a, ==_iff x.attempt_id a, q, fresh), r));
  }

pub persist_dispatch-Leaves :
    (j : DurableJournal) (x : DispatchRecord) → IsValid j → Leaves (persist_dispatch j x)
unfolding persist_dispatch
persist_dispatch-Leaves j x v = elim (Bool-cases (contains_key x.operation_id j.intents)) [
  | inr e ↦ rw (e, persist_dispatch) tt
  | inl e ↦ elim (Option-cases (get x.attempt_id j.dispatches)) [
    | inr (d, k) ↦ rw (e, k, persist_dispatch) tt
    | inl k ↦ rw (e, k, persist_dispatch) (admit_dispatch j x v e k)
  ]
]

settle_outcome-Leaves :
    (j : DurableJournal) (x : OutcomeRecord) (d : DispatchRecord)
    → IsValid j
    → get x.attempt_id j.dispatches ≡ some d
    → d.operation_id ≡ x.operation_id
    → Leaves (settle_outcome j x)
unfolding settle_outcome
settle_outcome-Leaves j x d v e same = elim (Option-cases (get x.attempt_id j.outcomes)) [
  | inr (o, k) ↦ elim (KnownEffectOutcome-discrete o.outcome x.outcome) [
    | yes p ↦ rw (k, settle_outcome) (rw (if_pos _ p) v)
    | no p ↦ rw (k, settle_outcome) (rw (if_neg _ p) tt)
  ]
  | inl k ↦
      rw (k, settle_outcome)
        (record {
          owner = v.owner;
          owned = v.owned;
          dispatched = v.dispatched;
          attempted = v.attempted;
          settled = λ a o h. elim (Bool-cases (x.attempt_id == a)) [
            | inl q ↦
                let here : x ≡ o = ground (arith, get-insert a x.attempt_id x j.outcomes, q) in
                let at = (==_iff x.attempt_id a).0 q in
                (ground (arith, here, at), (d, ground (arith, e, at), ground (arith, same, here)))
            | inr q ↦ v.settled a o (ground (arith, get-insert a x.attempt_id x j.outcomes, q))
          ];
        })
]

pub persist_outcome-Leaves :
    (j : DurableJournal) (x : OutcomeRecord) → IsValid j → Leaves (persist_outcome j x)
unfolding persist_outcome
persist_outcome-Leaves j x v = elim (Bool-cases (contains_key x.operation_id j.intents)) [
  | inr e ↦ rw (e, persist_outcome) tt
  | inl e ↦ elim (Option-cases (get x.attempt_id j.dispatches)) [
    | inl k ↦ rw (e, k, persist_outcome) tt
    | inr (d, k) ↦ elim (Bool-cases (d.operation_id == x.operation_id)) [
      | inr q ↦ rw (e, k, persist_outcome) (rw q tt)
      | inl q ↦
          rw (e, k, persist_outcome)
            (rw q (settle_outcome-Leaves j x d v k ((==_iff d.operation_id x.operation_id).0 q)))
    ]
  ]
]
