-- ===== src/Capability/Resolver/Search.antt =====
-- `visit` is total: it builds what it visits after its requirements, or reports a true fault.
use graph_core.Base.{
  ℕ, zero, suc, ◌<◌, ◌≡◌, refl, sym, subst, inl, inr, List, [], ◌∷◌, ◌++◌, true, Option, none, some,
  Memᴰ, arith, Bool-cases, All, All-tabulate, ◌∙◌,
}
use graph_core.Base.Results.{ensure, expect}
use graph_core.Base.BTreeMap.{keys, get, contains_key, contains_key_iff}
use graph_core.Base.Walks.{Edge, Chain, Chain-concat, from_position-Chain}
use graph_core.Base.Marking.{unmarked, unmarked-Extends, unmarked-insert}
use graph_core.Core.Ident.{Ident, ident_ord}
use graph_core.Capability.Definition.{CapabilityDefinition, dependency_ids}
use graph_core.Capability.Resolver.{
  CapabilityGraph, requirements, VisitState, active, done, Walk, Visit, close_cycle, enter,
  visit_all, visit,
}
use graph_core.Capability.Resolver.Invariant.{
  Inv, Post, AllDone, IsDone, Visits, Post-bind, enter-Inv, leave-Post,
}

module _ (g : CapabilityGraph) where
  module _ (fuel : ℕ) (rec : Ident → Walk → Visit) (h : Visits g fuel rec) where
    visit_all-Post :
        (id : Ident) (path ds : List Ident) (w : Walk)
        → w.active_path ≡ path
        → Inv g w
        → contains_key id g.definitions ≡ true
        → All (λ d. Edge (requirements g) id d × Chain (requirements g) (path ++ d ∷ [])) ds
        → unmarked (keys g.definitions) w.states < fuel
        → Post g (AllDone g ds) w (visit_all g.definitions rec id ds w)
    unfolding visit_all
    visit_all-Post id path [] w p i k a u = (refl, i, (λ v x e. e), tt)
    visit_all-Post id path (d ∷ ds) w p i k ((edge, c), a) u =
        elim (Bool-cases (contains_key d g.definitions)) [
          | inl there ↦
              rw (there, ensure)
                (Post-bind g d ds w (rec d w) (visit_all g.definitions rec id ds)
                  (h d w i there (subst (λ s. Chain (requirements g) (s ++ d ∷ [])) (sym p) c) u)
                  (λ w' e i' x.
                    visit_all-Post id path ds w' (e ∙ p) i' k a
                      (omega (arith, unmarked-Extends (keys g.definitions) w.states w'.states x))))
          | inr missing ↦ rw (missing, ensure) (k, edge, missing)
        ]

  -- The marks of an active capability and the active path close a cycle.
  close_cycle-Post :
      (id : Ident) (w : Walk)
      → Inv g w
      → get id w.states ≡ some active
      → Chain (requirements g) (w.active_path ++ id ∷ [])
      → Post g (IsDone g id) w (close_cycle id w.active_path)
  unfolding close_cycle
  close_cycle-Post id w i e c =
      let (mid, p, chain) =
        from_position-Chain (requirements g) id w.active_path (i.on_path id e) c in
      rw (p, close_cycle) (id, mid, refl, chain)

  visit_new-Post :
      (fuel : ℕ) (id : Ident) (w : Walk) (o : Option CapabilityDefinition)
      → Visits g fuel (visit fuel g.definitions)
      → get id g.definitions ≡ o
      → Inv g w
      → contains_key id g.definitions ≡ true
      → get id w.states ≡ none
      → Chain (requirements g) (w.active_path ++ id ∷ [])
      → unmarked (keys g.definitions) w.states < suc fuel
      → Post g (IsDone g id) w (visit (suc fuel) g.definitions id w)
  unfolding visit requirements
  visit_new-Post fuel id w none h e i k fresh c u = absurd (ground arith)
  visit_new-Post fuel id w (some definition) h e i k fresh c u =
      let ids = dependency_ids definition in
      let same : requirements g id ≡ ids = rw (e, requirements) refl in
      let less =
        unmarked-insert (keys g.definitions) w.states id active fresh
          ((contains_key_iff id g.definitions).0 k) in
      rw (fresh, visit)
        (rw (e, expect)
          (leave-Post g id w _ i k fresh (
            subst
              (λ ds.
                Post g (AllDone g ds) (enter id w)
                  (visit_all g.definitions (visit fuel g.definitions) id ids (enter id w)))
              (sym same)
              (visit_all-Post fuel (visit fuel g.definitions) h id (w.active_path ++ id ∷ []) ids
                (enter id w) refl (enter-Inv g id w i fresh c) k
                (All-tabulate
                  (λ d.
                    Edge (requirements g) id d
                    × Chain (requirements g) ((w.active_path ++ id ∷ []) ++ d ∷ []))
                  ids
                  (λ d m.
                    let edge : Edge (requirements g) id d = subst (Memᴰ d) (sym same) m in
                    (edge, Chain-concat (requirements g) w.active_path id d c edge)))
                (omega (arith, less))))))

  pub visit-Visits : (fuel : ℕ) → Visits g fuel (visit fuel g.definitions)
  unfolding visit
  visit-Visits zero id w i k c u = absurd (omega arith)
  visit-Visits (suc fuel) id w i k c u = by_state (visit-Visits fuel) (get id w.states) refl
    where
      by_state :
          Visits g fuel (visit fuel g.definitions)
          → (o : Option VisitState) → get id w.states ≡ o
          → Post g (IsDone g id) w (visit (suc fuel) g.definitions id w)
      by_state rec none e = visit_new-Post fuel id w (get id g.definitions) rec refl i k e c u
      by_state rec (some active) e = rw (e, visit) (close_cycle-Post id w i e c)
      by_state rec (some done) e = rw (e, visit) (refl, i, (λ v x p. p), e)
