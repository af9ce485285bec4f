-- ===== src/Workflow/Cycles/Search.antt =====
-- `visit` is total, reports only cycles, and grounds what it completes.
use graph_core.Base.{
  ℕ, zero, suc, ◌≤◌, ◌≡◌, refl, sym, subst, inl, inr, List, [], ◌∷◌, ◌++◌, Option, none, some, Memᴰ,
  arith, Bool-cases, All, All-lookup, All-tabulate, drop_last-concat, Memᴰ-concat,
}
use graph_core.Base.Results.{ok, err, panic, out_of_fuel, ◌>>=◌}
use graph_core.Base.Order.{◌==◌, ==_iff}
use graph_core.Base.BTreeMap.{get, insert, get-insert}
use graph_core.Core.Ident.{Ident, ident_ord}
use graph_core.Workflow.Topology.{
  WorkflowTopology, dependencies, task_ids, VisitState, active, complete, Marks, Search,
  close_cycle, visit_all, visit, leave,
}
use graph_core.Base.Walks.{Edge, Chain, IsCycle, IsGrounded, Chain-concat, from_position-Chain}
use graph_core.Base.Marking.{
  unmarked, Extends, unmarked-Extends, unmarked-insert, Extends-trans, Extends-leave,
}
use mathlib.Core.WellFounded.{Acc}
use mathlib.Core.List.Memᴰ

-- Both ends of each edge are tasks.
abbrev pub IsClosed : WorkflowTopology → Type 0
IsClosed t = (v d : Ident) → Edge (dependencies t) v d → Memᴰ v (task_ids t) × Memᴰ d (task_ids t)

module _ (t : WorkflowTopology) where
  -- Complete tasks are grounded, active tasks lie on the stack, and the stack is a chain.
  pub record Inv (m : Marks) (s : List Ident) : Type 0 where
    pub grounded : (v : Ident) → get v m ≡ some complete → IsGrounded (dependencies t) v
    pub on_stack : (v : Ident) → get v m ≡ some active → Memᴰ v s
    pub chain : Chain (dependencies t) s

  -- What a search from marks `m` and stack `s` returns: a cycle, or the same stack and more marks.
  abbrev pub Post : (Marks → Type 0) → Marks → List Ident → Search → Type 0
  Post Q m s (ok (m', s')) = (s' ≡ s) × Inv m' s × Extends m m' × Q m'
  Post Q m s (err path) = IsCycle (dependencies t) path
  Post Q m s panic = ⊥
  Post Q m s out_of_fuel = ⊥

  abbrev pub Visits : ℕ → (Ident → Marks → List Ident → Search) → Type 0
  Visits fuel rec =
      (d : Ident) (m : Marks) (s : List Ident)
      → Inv m s
      → get d m ≡ none
      → Memᴰ d (task_ids t)
      → Chain (dependencies t) (s ++ d ∷ [])
      → unmarked (task_ids t) m ≤ fuel
      → Post (λ m'. get d m' ≡ some complete) m s (rec d m s)

  pub Post-earlier :
      (P Q : Marks → Type 0) (m m' : Marks) (s : List Ident) (r : Search)
      → Extends m m'
      → ((m'' : Marks) → Extends m' m'' → P m'' → Q m'')
      → Post P m' s r
      → Post Q m s r
  Post-earlier P Q m m' s (ok (m'', s')) e f (p, i, x, q) =
      (p, i, Extends-trans m m' m'' e x, f m'' x q)
  Post-earlier P Q m m' s (err path) e f c = c
  Post-earlier P Q m m' s panic e f c = c
  Post-earlier P Q m m' s out_of_fuel e f c = c

  pub Post-bind :
      (P Q : Marks → Type 0) (m : Marks) (s : List Ident) (r : Search)
      (k : Marks → List Ident → Search)
      → Post P m s r
      → ((m' : Marks) → Inv m' s → Extends m m' → P m' → Post Q m s (k m' s))
      → Post Q m s (r >>= λ p. k p.0 p.1)
  Post-bind P Q m s (ok (m', s')) k (e, i, x, p) f = rw e (f m' i x p)
  Post-bind P Q m s (err path) k c f = c
  Post-bind P Q m s panic k c f = c
  Post-bind P Q m s out_of_fuel k c f = c

  abbrev pub AllComplete : List Ident → Marks → Type 0
  AllComplete ds m = All (λ d. get d m ≡ some complete) ds

  module _ (fuel : ℕ) (rec : Ident → Marks → List Ident → Search) (h : Visits fuel rec) where
    -- One dependency, given what the search of the others returns.
    visit_all_step :
        (d : Ident) (ds : List Ident) (m : Marks) (s : List Ident) (o : Option VisitState)
        → get d m ≡ o
        → Inv m s
        → Chain (dependencies t) (s ++ d ∷ [])
        → Memᴰ d (task_ids t)
        → unmarked (task_ids t) m ≤ fuel
        → ((m' : Marks)
            → Inv m' s
            → unmarked (task_ids t) m' ≤ fuel
            → Post (AllComplete ds) m' s (visit_all rec ds m' s))
        → Post (AllComplete (d ∷ ds)) m s (visit_all rec (d ∷ ds) m s)
    unfolding visit_all close_cycle
    visit_all_step d ds m s none e i c k u rest =
        rw (e, visit_all)
          (Post-bind (λ m'. get d m' ≡ some complete) (AllComplete (d ∷ ds)) m s (rec d m s)
            (visit_all rec ds) (h d m s i e k c u)
            (λ m' i' x done.
              Post-earlier (AllComplete ds) (AllComplete (d ∷ ds)) m m' s (visit_all rec ds m' s) x
                (λ m'' x' cs. (x' d complete done, cs))
                (rest m' i' (omega (arith, unmarked-Extends (task_ids t) m m' x)))))
    visit_all_step d ds m s (some active) e i c k u rest =
        let (mid, p, chain) = from_position-Chain (dependencies t) d s (i.on_stack d e) c in
        rw (e, visit_all) (rw (p, close_cycle) (d, mid, refl, chain))
    visit_all_step d ds m s (some complete) e i c k u rest =
        rw (e, visit_all)
          (Post-earlier (AllComplete ds) (AllComplete (d ∷ ds)) m m s (visit_all rec ds m s)
            (λ v x e'. e') (λ m'' x cs. (x d complete e, cs)) (rest m i u))

    visit_all-Post :
        (ds : List Ident) (m : Marks) (s : List Ident)
        → Inv m s
        → All (λ d. Chain (dependencies t) (s ++ d ∷ []) × Memᴰ d (task_ids t)) ds
        → unmarked (task_ids t) m ≤ fuel
        → Post (AllComplete ds) m s (visit_all rec ds m s)
    unfolding visit_all
    visit_all-Post [] m s i a u = (refl, i, (λ v x e. e), tt)
    visit_all-Post (d ∷ ds) m s i a u =
        visit_all_step d ds m s (get d m) refl i a.0.0 a.0.1 u
          (λ m' i' u'. visit_all-Post ds m' s i' a.1 u')

  enter-Inv :
      (id : Ident) (m : Marks) (s : List Ident)
      → Inv m s
      → Chain (dependencies t) (s ++ id ∷ [])
      → Inv (insert id active m) (s ++ id ∷ [])
  enter-Inv id m s i c = record {
    grounded = λ v h. i.grounded v (ground (arith, get-insert v id active m));
    on_stack = λ v h. elim (Bool-cases (id == v)) [
      | inl e ↦ Memᴰ.append_right s (Memᴰ.head (sym ((==_iff id v).0 e)))
      | inr e ↦ Memᴰ.append_left _ (i.on_stack v (ground (arith, get-insert v id active m)))
    ];
    chain = c;
  }

  leave-Inv :
      (id : Ident) (m m' : Marks) (s : List Ident)
      → Chain (dependencies t) s
      → Inv m' (s ++ id ∷ [])
      → AllComplete (dependencies t id) m'
      → Inv (insert id complete m') s
  leave-Inv id m m' s c i a = record {
    grounded = λ v h. elim (Bool-cases (id == v)) [
      | inl e ↦
          subst (IsGrounded (dependencies t)) ((==_iff id v).0 e) (
            Acc.intro id (λ d m. i.grounded d (All-lookup (λ d. get d m' ≡ some complete) _ a d m)))
      | inr e ↦ i.grounded v (ground (arith, get-insert v id complete m'))
    ];
    on_stack = λ v h. elim (Bool-cases (id == v)) [
      | inl e ↦ absurd (ground (arith, get-insert v id complete m'))
      | inr e ↦
          elim ((Memᴰ-concat v id s).0
            (i.on_stack v (ground (arith, get-insert v id complete m')))) [
              | inl here ↦ here
              | inr same ↦ absurd (ground (arith, ==_iff id v))
            ]
    ];
    chain = c;
  }

  leave-Post :
      (id : Ident) (m : Marks) (s : List Ident) (r : Search)
      → Inv m s
      → get id m ≡ none
      → Post (AllComplete (dependencies t id)) (insert id active m) (s ++ id ∷ []) r
      → Post (λ m'. get id m' ≡ some complete) m s (r >>= λ p. ok (leave id p))
  leave-Post id m s (ok (m', s')) i fresh (e, i', x, a) = (
    rw e (drop_last-concat s id),
    leave-Inv id m m' s i.chain i' a,
    Extends-leave m m' id active complete fresh x,
    ground (arith, get-insert id id complete m', ==_iff id id),
  )
  leave-Post id m s (err path) i fresh c = c
  leave-Post id m s panic i fresh c = c
  leave-Post id m s out_of_fuel i fresh c = c

  module _ (closed : IsClosed t) where
    pub visit-Visits : (fuel : ℕ) → Visits fuel (visit fuel t)
    unfolding visit
    visit-Visits zero d m s i fresh mem c u =
        absurd (omega (arith, unmarked-insert (task_ids t) m d active fresh mem))
    visit-Visits (suc fuel) d m s i fresh mem c u = leave-Post d m s _ i fresh (
        visit_all-Post fuel (visit fuel t) (visit-Visits fuel) (dependencies t d)
          (insert d active m) (s ++ d ∷ []) (enter-Inv d m s i c)
          (All-tabulate
            (λ e. Chain (dependencies t) ((s ++ d ∷ []) ++ e ∷ []) × Memᴰ e (task_ids t)) _
            (λ e edge. (Chain-concat (dependencies t) s d e c edge, (closed d e edge).1)))
          (omega (arith, unmarked-insert (task_ids t) m d active fresh mem)))
