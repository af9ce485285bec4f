-- ===== src/Capability/Publish/Guards.antt =====
-- What a publication has checked.
use graph_core.Base.{
  ℕ, ◌≡◌, refl, sym, ap, ◌∙◌, inl, inr, Bool, true, false, List, [], ◌∷◌, Option, none, some, Memᴰ,
  arith, Bool-cases, not, ◌||◌,
}
use graph_core.Base.Results.{Result, ok, err, panic, out_of_fuel, ensure, ok_or, expect, ◌>>=◌}
use graph_core.Base.Order.{◌==◌, ==_iff, nat_ord}
use graph_core.Base.BTreeMap.{BTreeMap, get, insert, get-insert}
use graph_core.Core.Ident.{Ident, ident_ord}
use graph_core.Capability.Definition.{CapabilityDefinition, dependency_ids}
use graph_core.Capability.Generation.{Generation, generation_ord, first, checked_next}
use graph_core.Capability.Resolver.{
  CapabilityGraph, CapabilityGraphError, ResolvedCapabilityGraph, ValidatedCapabilityDefinition,
  validate_candidate, insert_definition,
}
use graph_core.Capability.Resolver.Outcome.{Resolves}
use graph_core.Capability.Resolver.Admission.{validate_candidate_lem}
use graph_core.Capability.Entry.{
  CapabilityHandle, ResolvedDependencies, ScopeError, closed, dependency_changed,
}
use graph_core.Capability.Scope.{
  CapabilityEntry, Scope, chain, Scopes, state_at, is_open, lookup, visible_graph,
  visible_graph_with_entries, live_descendants, candidate_affects,
}
use graph_core.Capability.Checks.{
  PublishExpectation, new_entry, replace_entry, admitted, from_handles, get_handle, resolve_all,
  resolve_dependencies, same_entry, check_unchanged, check_entry, check_expectation,
  check_descendants, validate_descendant_admission, next_generation, check_publication,
}
use mathlib.Core.List.Memᴰ

module _ {A B : Type 0} where
  pub from_ok :
      (x : Result ScopeError A) (f : A → Result ScopeError B) (b : B)
      → (x >>= f) ≡ ok b
      → (a : A) × (x ≡ ok a) × (f a ≡ ok b)
  from_ok (ok a) f b e = (a, refl, e)
  from_ok (err _) f b e = absurd (ground arith)
  from_ok panic f b e = absurd (ground arith)
  from_ok out_of_fuel f b e = absurd (ground arith)

module _ {A : Type 0} where
  some_of_ok : (o : Option A) (e : ScopeError) (a : A) → ok_or o e ≡ ok a → o ≡ some a
  some_of_ok none e a h = absurd (ground arith)
  some_of_ok (some b) e a h = ground arith

  some_of_expect : (o : Option A) (a : A) → expect {E = ScopeError} o ≡ ok a → o ≡ some a
  some_of_expect none a h = absurd (ground arith)
  some_of_expect (some b) a h = ground arith

  ok_of_admitted : (x : Result CapabilityGraphError A) (a : A) → admitted x ≡ ok a → x ≡ ok a
  ok_of_admitted (ok b) a h = ground arith
  ok_of_admitted (err _) a h = absurd (ground arith)
  ok_of_admitted panic a h = absurd (ground arith)
  ok_of_admitted out_of_fuel a h = absurd (ground arith)

true_of_ensure : (b : Bool) (e : ScopeError) (u : Unit {0}) → ensure b e ≡ ok u → b ≡ true
true_of_ensure true e u h = refl
true_of_ensure false e u h = absurd (ground arith)

-- The graph with the candidate can be built in order.
abbrev pub Buildable : CapabilityGraph → CapabilityDefinition → Type 0
Buildable g c = (r : ResolvedCapabilityGraph) × Resolves (insert_definition g c).0 r

buildable :
    (g : CapabilityGraph) (c : CapabilityDefinition) (v : ValidatedCapabilityDefinition)
    → validate_candidate g c ≡ ok v
    → Buildable g c
buildable g c v e = elim (validate_candidate_lem g c) [
  | inl (v', _, _, h, _) ↦ (v'.resolution, h)
  | inr (x, p, _) ↦ absurd (ground arith)
]

resolve_all-visible :
    (visible : Ident → Option CapabilityHandle) (id : Ident) (ds : List Ident)
    (m k : BTreeMap Ident CapabilityHandle)
    → ((d : Ident) (h : CapabilityHandle) → get d m ≡ some h → visible d ≡ some h)
    → resolve_all visible id ds m ≡ ok k
    → (d : Ident) (h : CapabilityHandle) → get d k ≡ some h
    → visible d ≡ some h
unfolding resolve_all
resolve_all-visible visible id [] m k before e = λ d h there. before d h (ground arith)
resolve_all-visible visible id (x ∷ xs) m k before e =
    let (a, p, q) = from_ok _ _ k e in
    let seen = some_of_ok (visible x) _ a p in
    resolve_all-visible visible id xs (insert x a m) k
      (λ d h there. ground (arith, get-insert d x a m, before d h, ==_iff x d)) q

get_handle-from_handles :
    (m : BTreeMap Ident CapabilityHandle) (d : Ident) → get_handle d (from_handles m) ≡ get d m
unfolding get_handle get
get_handle-from_handles [] d = refl
get_handle-from_handles ((id, h) ∷ m) d = ground (arith, get_handle-from_handles m d)

-- The dependency is still the entry of the snapshot.
abbrev pub Unchanged : Scopes → Scope → ResolvedDependencies → Ident → Type 0
Unchanged w s dependencies d =
    (a : CapabilityHandle) × (b : CapabilityHandle) × (get_handle d dependencies ≡ some a)
    × (lookup w (chain s) d ≡ some b)
    × (same_entry b a ≡ true)

unchanged :
    (w : Scopes) (s : Scope) (snapshot : ResolvedDependencies) (m : BTreeMap Ident CapabilityHandle)
    (id : Ident) (ds : List Ident) (u : Unit {0})
    → ((d : Ident) (h : CapabilityHandle) → get d m ≡ some h → lookup w (chain s) d ≡ some h)
    → check_unchanged snapshot (from_handles m) id ds ≡ ok u
    → (d : Ident) → Memᴰ d ds
    → Unchanged w s snapshot d
unfolding check_unchanged
unchanged w s snapshot m id [] u seen e d at = absurd (Memᴰ.not-nil at)
unchanged w s snapshot m id (x ∷ xs) u seen e d at =
    let (a, p, q) = from_ok _ _ u e in
    let (b, p', q') = from_ok _ _ u q in
    let (v, p'', q'') =
      from_ok (ensure (same_entry b a) (dependency_changed id x))
        (λ _. check_unchanged snapshot (from_handles m) id xs) u q' in
    elim (Memᴰ.cases_cons at) [
      | inr later ↦ unchanged w s snapshot m id xs u seen q'' d later
      | inl same ↦ rw same (
        a,
        b,
        some_of_expect (get_handle x snapshot) a p,
        seen x b (
            sym (get_handle-from_handles m x)
            ∙ some_of_expect (get_handle x (from_handles m)) b p'),
        true_of_ensure (same_entry b a) (dependency_changed id x) v p'',
      )
    ]

-- The publication that was expected, and its generation.
abbrev pub Expected : PublishExpectation → Option CapabilityEntry → Generation → Type 0
Expected new_entry current g = (current ≡ none) × (g ≡ first)
Expected (replace_entry expected) current g =
    (e : CapabilityEntry) × (current ≡ some e)
    × (e.generation ≡ expected)
    × (checked_next expected ≡ some g)

Expected-of_checks :
    (id : Ident) (x : PublishExpectation) (current : Option CapabilityEntry) (u : Unit {0})
    (g : Generation)
    → check_entry id x current ≡ ok u
    → next_generation id x current ≡ ok g
    → Expected x current g
unfolding check_entry next_generation
Expected-of_checks id new_entry none u g e n = (refl, ground arith)
Expected-of_checks id new_entry (some _) u g e n = absurd (ground arith)
Expected-of_checks id (replace_entry x) none u g e n = absurd (ground arith)
Expected-of_checks id (replace_entry x) (some old) u g e n =
    let same : old.generation ≡ x =
      (==_iff old.generation x).0 (true_of_ensure (old.generation == x) _ u e) in
    (old, refl, same, ap checked_next (sym same) ∙ some_of_ok (checked_next old.generation) _ g n)

-- Where a descendant sees the candidate, its graph can be built with it.
abbrev pub SuitsDescendant : Scopes → Scope → CapabilityDefinition → Scope → Type 0
SuitsDescendant w s c d =
    is_open w d.key ≡ true
    → candidate_affects w s.key (chain d) c.id ≡ true
    → Buildable (visible_graph w d) c

suits_descendants :
    (w : Scopes) (s : Scope) (c : CapabilityDefinition) (ds : List Scope) (u : Unit {0})
    → check_descendants w s c ds ≡ ok u
    → (d : Scope) → Memᴰ d ds
    → SuitsDescendant w s c d
unfolding check_descendants
suits_descendants w s c [] u e d at = absurd (Memᴰ.not-nil at)
suits_descendants w s c (x ∷ xs) u e d at =
    elim (Bool-cases (not (is_open w x.key) || not (candidate_affects w s.key (chain x) c.id))) [
      | inl skip ↦
          let later : check_descendants w s c xs ≡ ok u = ground arith in
          elim (Memᴰ.cases_cons at) [
            | inr m ↦ suits_descendants w s c xs u later d m
            | inl same ↦ rw same (λ o a. absurd (ground arith))
          ]
      | inr checked ↦
          let (v, p, later) =
            from_ok (admitted (validate_candidate (visible_graph w x) c))
              (λ _. check_descendants w s c xs) u (ground arith) in
          elim (Memᴰ.cases_cons at) [
            | inr m ↦ suits_descendants w s c xs u later d m
            | inl same ↦ rw same (λ o a. buildable (visible_graph w x) c v (ok_of_admitted _ v p))
          ]
    ]

-- What holds when the entry is published.
pub record Publishable (alive : ℕ → Bool) (w : Scopes) (s : Scope) (c : CapabilityDefinition)
    (x : PublishExpectation) (snapshot : ResolvedDependencies) (g : Generation) : Type 0 where
  pub open_scope : is_open w s.key ≡ true
  pub expected : Expected x (get c.id (state_at w s.key).entries) g
  pub unchanged : (d : Ident) → Memᴰ d (dependency_ids c) → Unchanged w s snapshot d
  pub buildable : Buildable (visible_graph_with_entries w s) c
  pub below : List Scope
  pub listed : live_descendants alive w s ≡ ok below
  pub suits : (d : Scope) → Memᴰ d below → SuitsDescendant w s c d

pub check_publication-Publishable :
    (alive : ℕ → Bool) (w : Scopes) (s : Scope) (c : CapabilityDefinition) (x : PublishExpectation)
    (snapshot : ResolvedDependencies) (g : Generation)
    → check_publication alive w s c x snapshot ≡ ok g
    → Publishable alive w s c x snapshot g
unfolding check_publication resolve_dependencies validate_descendant_admission check_expectation get
check_publication-Publishable alive w s c x snapshot g e =
    let current = get c.id (state_at w s.key).entries in
    let (ds, p0, e1) = from_ok (resolve_dependencies w s c) _ g e in
    let (m, resolved, q0) =
      from_ok (resolve_all (lookup w (chain s)) c.id (dependency_ids c) []) _ ds p0 in
    let (u1, p1, e2) = from_ok (check_unchanged snapshot ds c.id (dependency_ids c)) _ g e1 in
    let (u2, p2, e3) = from_ok (validate_descendant_admission alive w s c) _ g e2 in
    let (below, listed, q2) = from_ok (live_descendants alive w s) _ u2 p2 in
    let (u3, p3, e4) = from_ok (check_expectation w s c.id x) _ g e3 in
    let (u4, opened, q3) = from_ok (ensure (is_open w s.key) closed) _ u3 p3 in
    let (v, p4, e5) =
      from_ok (admitted (validate_candidate (visible_graph_with_entries w s) c)) _ g e4 in
    let same : from_handles m ≡ ds = ground arith in
    record {
      open_scope = true_of_ensure (is_open w s.key) closed u4 opened;
      expected = Expected-of_checks c.id x current u3 g q3 e5;
      unchanged =
          unchanged w s snapshot m c.id (dependency_ids c) u1
            (resolve_all-visible (lookup w (chain s)) c.id (dependency_ids c) [] m (λ d h there. cc)
              resolved)
            (rw same p1);
      buildable = buildable (visible_graph_with_entries w s) c v (ok_of_admitted _ v p4);
      below = below;
      listed = listed;
      suits = suits_descendants w s c below u2 q2;
    }
