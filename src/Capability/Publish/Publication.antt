-- ===== src/Capability/Publish/Publication.antt =====
-- What a publication and a withdrawal do, on every branch.
use graph_core.Base.{
  ℕ, suc, ◌≡◌, ◌≢◌, refl, sym, ap, subst, ◌∙◌, ◌⊎◌, inl, inr, Bool, true, false, List, none, some,
  Memᴰ, arith, Bool-cases, Option-cases, if◌then◌else◌,
}
use graph_core.Base.Words.{checked_add}
use graph_core.Base.Results.{Result, ok, err, panic, out_of_fuel, expect}
use graph_core.Base.Order.{◌==◌, ==_iff, ==_refl, nat_ord}
use graph_core.Base.BTreeMap.{BTreeMap, get, insert, remove, get-insert, get-remove}
use graph_core.Core.Ident.{Ident, ident_ord}
use graph_core.Capability.Definition.{CapabilityDefinition}
use graph_core.Capability.Generation.{Generation, generation_ord}
use graph_core.Capability.Entry.{
  CapabilityHandle, handle, ResolvedDependencies, ScopeError, closed, no_local_entry,
  replacement_conflict,
}
use graph_core.Capability.Scope.{
  CapabilityEntry, handle_of, Scope, Scopes, state_at, is_open, lookup, get_visible, nearest,
}
use graph_core.Capability.Checks.{PublishExpectation, check_publication}
use graph_core.Capability.Publish.{
  allocate_entry_id, with_entry, without_entry, prepare_entry, publish_preconstructed, withdraw,
}
use graph_core.Capability.Publish.Visibility.{
  EntriesChange, lookup-outside, lookup-other, lookup-here, with_entry-EntriesChange,
  without_entry-EntriesChange,
}
use graph_core.Capability.Publish.Guards.{Publishable, check_publication-Publishable, from_ok}

-- Other identifiers, and other scopes but the descendants, are seen as before.
abbrev pub OnlyHere : Scopes → Scope → Ident → Scopes → Type 0
OnlyHere w s id w' =
    (ks : List ℕ) (j : Ident) → (¬ Memᴰ s.key ks) ⊎ (j ≢ id) → lookup w' ks j ≡ lookup w ks j

pub record Published (alive : ℕ → Bool) (w : Scopes) (s : Scope) (c : CapabilityDefinition)
    (x : PublishExpectation) (snapshot : ResolvedDependencies) (w' : Scopes) (h : CapabilityHandle)
    : Type 0 where
  pub generation : Generation
  pub guards : Publishable alive w s c x snapshot generation
  pub published : h ≡ handle c generation (record { value = w.next_entry }) snapshot
  pub seen_here : get_visible w' s c.id ≡ some h
  pub only_here : OnlyHere w s c.id w'
  pub next_entry : w'.next_entry ≡ suc w.next_entry

abbrev pub Publication :
    (ℕ → Bool)
    → Scopes
    → Scope
    → CapabilityDefinition
    → PublishExpectation
    → ResolvedDependencies
    → Scopes × Result ScopeError CapabilityHandle
    → Type 0
Publication alive w s c x snapshot (w', ok h) = Published alive w s c x snapshot w' h
Publication alive w s c x snapshot (w', _) = w' ≡ w

OnlyHere-entries :
    (w w' : Scopes) (s : Scope) (id : Ident) (es : BTreeMap Ident CapabilityEntry)
    → EntriesChange w w' s.key es
    → ((j : Ident) → j ≢ id → get j es ≡ get j (state_at w s.key).entries)
    → OnlyHere w s id w'
OnlyHere-entries w w' s id es change same ks j (inl out) =
    lookup-outside w w' s.key es change ks j out
OnlyHere-entries w w' s id es change same ks j (inr other) =
    lookup-other w w' s.key es change ks j (same j other)

module _ (alive : ℕ → Bool) (w : Scopes) (s : Scope) (c : CapabilityDefinition)
    (x : PublishExpectation) (snapshot : ResolvedDependencies) where
  published :
      (g : Generation)
      → Publishable alive w s c x snapshot g
      → let e : CapabilityEntry = record {
        definition = c;
        dependencies = snapshot;
        generation = g;
        entry_id = record { value = w.next_entry };
      } in
        Published alive w s c x snapshot (with_entry w s e) (handle_of e)
  published g guards =
      let e : CapabilityEntry = record {
        definition = c;
        dependencies = snapshot;
        generation = g;
        entry_id = record { value = w.next_entry };
      } in
      let entries = (state_at w s.key).entries in
      let change = with_entry-EntriesChange w s e in
      let found : (j : Ident)
          → get j (insert c.id e entries) ≡ (if c.id == j then some e else get j entries) =
        λ j. get-insert j c.id e entries in
      record {
        generation = g;
        guards = guards;
        published = refl;
        seen_here =
            lookup-here w (with_entry w s e) s.key (insert c.id e entries) change s.ancestors c.id
              guards.open_scope
            ∙ ground (arith, found c.id, ==_refl c.id);
        only_here =
            OnlyHere-entries w (with_entry w s e) s c.id (insert c.id e entries) change
              (λ j other. ground (arith, found j, ==_iff c.id j));
        next_entry = refl;
      }

  prepared :
      (e : CapabilityEntry)
      → prepare_entry alive w s c x snapshot ≡ ok e
      → (g : Generation) × Publishable alive w s c x snapshot g
        × (e ≡ record {
          definition = c;
          dependencies = snapshot;
          generation = g;
          entry_id = record { value = w.next_entry };
        })
  unfolding prepare_entry
  prepared e p =
      let (g, checked, q) = from_ok (check_publication alive w s c x snapshot) _ e p in
      let (n, allocated, q') = from_ok (allocate_entry_id w) _ e q in
      let (m, _, q'') = from_ok (expect (checked_add w.next_entry 1)) _ n allocated in
      let id : record { value = w.next_entry } ≡ n = ground arith in
      (g, check_publication-Publishable alive w s c x snapshot g checked, ground (arith, id, q'))

  -- A publication that succeeds has met its guards: the scope is open; the identifier had no entry
  -- here, or the one of the expected generation and the new one has the next; each dependency is
  -- still the entry that the factory was given; and the graph that the scope sees, and that of every
  -- live open descendant that sees the candidate, can be built with it. The scope then sees the new
  -- entry, whose identity is new, and all other identifiers as before, as do scopes that are not
  -- below it. A publication that fails changes nothing.
  pub publish_preconstructed_lem :
      Publication alive w s c x snapshot (publish_preconstructed alive w s c x snapshot)
  unfolding publish_preconstructed
  publish_preconstructed_lem = by_result (prepare_entry alive w s c x snapshot) refl
    where
      by_result :
          (r : Result ScopeError CapabilityEntry)
          → prepare_entry alive w s c x snapshot ≡ r
          → Publication alive w s c x snapshot (publish_preconstructed alive w s c x snapshot)
      by_result (ok e) p =
          let (g, guards, q) = prepared e p in
          rw (p, publish_preconstructed)
            (subst (λ e. Published alive w s c x snapshot (with_entry w s e) (handle_of e)) (sym q)
              (published g guards))
      by_result (err _) p = rw (p, publish_preconstructed) refl
      by_result panic p = rw (p, publish_preconstructed) refl
      by_result out_of_fuel p = rw (p, publish_preconstructed) refl

pub record Withdrawn (w : Scopes) (s : Scope) (id : Ident) (expected : Generation) (w' : Scopes)
    (h : CapabilityHandle) : Type 0 where
  pub entry : CapabilityEntry
  pub open_scope : is_open w s.key ≡ true
  pub found : get id (state_at w s.key).entries ≡ some entry
  pub current : entry.generation ≡ expected
  pub withdrawn : h ≡ handle_of entry
  pub seen_here : get_visible w' s id ≡ lookup w' s.ancestors id
  pub only_here : OnlyHere w s id w'

-- What refuses a withdrawal.
abbrev pub RefusesWithdrawal : Scopes → Scope → Ident → Generation → ScopeError → Type 0
RefusesWithdrawal w s id expected closed = is_open w s.key ≡ false
RefusesWithdrawal w s id expected (no_local_entry j) =
    (j ≡ id) × (get id (state_at w s.key).entries ≡ none)
RefusesWithdrawal w s id expected (replacement_conflict j g actual) =
    (e : CapabilityEntry) × (get id (state_at w s.key).entries ≡ some e)
    × (e.generation ≡ actual)
    × (actual ≢ expected)
RefusesWithdrawal w s id expected _ = ⊥

abbrev pub Withdrawal :
    Scopes → Scope → Ident → Generation → Scopes × Result ScopeError CapabilityHandle → Type 0
Withdrawal w s id expected (w', ok h) = Withdrawn w s id expected w' h
Withdrawal w s id expected (w', err e) = (w' ≡ w) × RefusesWithdrawal w s id expected e
Withdrawal w s id expected (w', panic) = ⊥
Withdrawal w s id expected (w', out_of_fuel) = ⊥

withdrawn :
    (w : Scopes) (s : Scope) (id : Ident) (e : CapabilityEntry)
    → is_open w s.key ≡ true
    → get id (state_at w s.key).entries ≡ some e
    → Withdrawn w s id e.generation (without_entry w s id) (handle_of e)
withdrawn w s id e opened found =
    let es = remove id (state_at w s.key).entries in
    let change = without_entry-EntriesChange w s id in
    let left : (j : Ident)
        → get j es ≡ (if id == j then none else get j (state_at w s.key).entries) =
      λ j. get-remove j id (state_at w s.key).entries in
    let gone : get id es ≡ none = ground (arith, left id, ==_refl id) in
    record {
      entry = e;
      open_scope = opened;
      found = found;
      current = refl;
      withdrawn = refl;
      seen_here =
          lookup-here w (without_entry w s id) s.key es change s.ancestors id opened
          ∙ ap (λ o. nearest o (lookup (without_entry w s id) s.ancestors id)) gone;
      only_here =
          OnlyHere-entries w (without_entry w s id) s id es change
            (λ j other. ground (arith, left j, ==_iff id j));
    }

-- A withdrawal returns. It removes the entry exactly if the scope is open and has one of the
-- expected generation; the scope then sees of the identifier what its parent sees, and all other
-- identifiers as before, as do scopes that are not below it. An error names the reason and changes
-- nothing.
pub withdraw_lem :
    (w : Scopes) (s : Scope) (id : Ident) (expected : Generation)
    → Withdrawal w s id expected (withdraw w s id expected)
unfolding withdraw
withdraw_lem w s id expected = elim (Bool-cases (is_open w s.key)) [
  | inr shut ↦ rw (shut, withdraw) (refl, shut)
  | inl opened ↦ elim (Option-cases (get id (state_at w s.key).entries)) [
    | inl none_ ↦ rw (opened, none_, withdraw) (refl, (refl, none_))
    | inr (e, found) ↦ elim (Bool-cases (e.generation == expected)) [
      | inr other ↦
          rw (opened, found, withdraw)
            (rw other
              (refl, (e, found, refl, λ same. ground (arith, ==_iff e.generation expected))))
      | inl same ↦
          rw (opened, found, withdraw)
            (rw same (
              subst (λ g. Withdrawn w s id g (without_entry w s id) (handle_of e))
                ((==_iff e.generation expected).0 same) (withdrawn w s id e opened found)))
    ]
  ]
]
