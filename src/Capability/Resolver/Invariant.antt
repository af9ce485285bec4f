-- ===== src/Capability/Resolver/Invariant.antt =====
-- The state of a resolution between two visits, and what entering and leaving a capability keep.
use graph_core.Base.{
  ℕ, ◌<◌, ◌≡◌, refl, sym, subst, inl, inr, List, [], ◌∷◌, ◌++◌, true, false, none, some, Memᴰ,
  arith, Bool-cases, All, All-lookup, All-tabulate, drop_last-concat, Memᴰ-concat, drop_last,
}
use graph_core.Base.Results.{ok, err, panic, out_of_fuel, ◌>>=◌}
use graph_core.Base.Order.{◌==◌, ==_iff, ==_refl}
use graph_core.Base.BTreeMap.{keys, get, insert, get-insert, contains_key}
use graph_core.Base.Walks.{Edge, Chain, IsCycle}
use graph_core.Base.Marking.{unmarked, Extends, Extends-trans, Extends-leave}
use graph_core.Core.Ident.{Ident, ident_ord}
use graph_core.Capability.Resolver.{
  CapabilityGraphError, unknown_capability, missing_dependency, cycle, CapabilityGraph,
  requirements, active, done, Walk, Visit, enter, leave,
}
use graph_core.Capability.Resolver.Construction.{IsConstruction, Constructs-concat}
use mathlib.Core.List.Memᴰ

module _ (g : CapabilityGraph) where
  -- What is done has been constructed, in an order that respects the requirements, and what is
  -- active lies on the active path, a chain of requirements.
  pub record Inv (w : Walk) : Type 0 where
    pub finished : (v : Ident) → get v w.states ≡ some done → Memᴰ v w.construction_order
    pub constructed : (v : Ident) → Memᴰ v w.construction_order → get v w.states ≡ some done
    pub registered : (v : Ident) → Memᴰ v w.construction_order → contains_key v g.definitions ≡ true
    pub on_path : (v : Ident) → get v w.states ≡ some active → Memᴰ v w.active_path
    pub chain : Chain (requirements g) w.active_path
    pub constructs : IsConstruction (requirements g) w.construction_order

  -- What an error of the resolver says of the graph.
  abbrev pub Fault : CapabilityGraphError → Type 0
  Fault (unknown_capability id) = ⊥
  Fault (missing_dependency c d) =
      (contains_key c g.definitions ≡ true)
      × Edge (requirements g) c d
      × (contains_key d g.definitions ≡ false)
  Fault (cycle path) = IsCycle (requirements g) path

  abbrev pub Post : (Walk → Type 0) → Walk → Visit → Type 0
  Post Q w (ok w') = (w'.active_path ≡ w.active_path) × Inv w' × Extends w.states w'.states × Q w'
  Post Q w (err e) = Fault e
  Post Q w panic = ⊥
  Post Q w out_of_fuel = ⊥

  abbrev pub IsDone : Ident → Walk → Type 0
  IsDone id w = get id w.states ≡ some done

  abbrev pub AllDone : List Ident → Walk → Type 0
  AllDone ids w = All (λ d. get d w.states ≡ some done) ids

  abbrev pub Visits : ℕ → (Ident → Walk → Visit) → Type 0
  Visits fuel rec =
      (id : Ident) (w : Walk)
      → Inv w
      → contains_key id g.definitions ≡ true
      → Chain (requirements g) (w.active_path ++ id ∷ [])
      → unmarked (keys g.definitions) w.states < fuel
      → Post (IsDone id) w (rec id w)

  -- A first call that returns, and then a rest that continues from where it stopped.
  pub Post-bind :
      (id : Ident) (ids : List Ident) (w : Walk) (r : Visit) (k : Walk → Visit)
      → Post (IsDone id) w r
      → ((w' : Walk)
          → w'.active_path ≡ w.active_path
          → Inv w'
          → Extends w.states w'.states
          → Post (AllDone ids) w' (k w'))
      → Post (AllDone (id ∷ ids)) w (r >>= k)
  Post-bind id ids w (ok w') k (e, i, x, q) f = onward (k w') (f w' e i x)
    where
      onward : (r : Visit) → Post (AllDone ids) w' r → Post (AllDone (id ∷ ids)) w r
      onward (ok w'') (e', i', x', q') = (
        rw (e', e) refl,
        i',
        Extends-trans w.states w'.states w''.states x x',
        (x' id done q, q'),
      )
      onward (err f) h = h
      onward panic h = h
      onward out_of_fuel h = h
  Post-bind id ids w (err f) k h _ = h
  Post-bind id ids w panic k h _ = h
  Post-bind id ids w out_of_fuel k h _ = h

  pub enter-Inv :
      (id : Ident) (w : Walk)
      → Inv w
      → get id w.states ≡ none
      → Chain (requirements g) (w.active_path ++ id ∷ [])
      → Inv (enter id w)
  enter-Inv id w i fresh c = record {
    finished = λ v h. i.finished v (ground (arith, get-insert v id active w.states));
    constructed =
        λ v m. ground (arith, get-insert v id active w.states, ==_iff id v, i.constructed v m);
    registered = i.registered;
    on_path = λ v h. elim (Bool-cases (id == v)) [
      | inl e ↦ Memᴰ.append_right w.active_path (Memᴰ.head (sym ((==_iff id v).0 e)))
      | inr e ↦ Memᴰ.append_left _ (i.on_path v (ground (arith, get-insert v id active w.states)))
    ];
    chain = c;
    constructs = i.constructs;
  }

  -- The capability `id` is left at `w'`, after it was entered at `w`.
  module _ (id : Ident) (w w' : Walk) (path : w'.active_path ≡ w.active_path ++ id ∷ []) (i : Inv w)
      (i' : Inv w') (k : contains_key id g.definitions ≡ true)
      (open_ : get id w'.states ≡ some active) (deps : AllDone (requirements g id) w') where
    leave_path : drop_last w'.active_path ≡ w.active_path
    leave_path = rw path (drop_last-concat w.active_path id)

    leave_on_path :
        (v : Ident) → get v (insert id done w'.states) ≡ some active → Memᴰ v w.active_path
    leave_on_path v h = elim (Bool-cases (id == v)) [
      | inl e ↦ absurd (ground (arith, get-insert v id done w'.states))
      | inr e ↦
          let here : Memᴰ v w'.active_path =
            i'.on_path v (ground (arith, get-insert v id done w'.states)) in
          elim ((Memᴰ-concat v id w.active_path).0 (subst (Memᴰ v) path here)) [
            | inl before ↦ before
            | inr same ↦ absurd (ground (arith, ==_iff id v))
          ]
    ]

    leave-Inv : Inv (leave id w')
    leave-Inv = record {
      finished = λ v h. elim (Bool-cases (id == v)) [
        | inl e ↦ Memᴰ.append_right w'.construction_order (Memᴰ.head (sym ((==_iff id v).0 e)))
        | inr e ↦
            Memᴰ.append_left _ (i'.finished v (ground (arith, get-insert v id done w'.states)))
      ];
      constructed = λ v m. elim ((Memᴰ-concat v id w'.construction_order).0 m) [
        | inl before ↦ ground (arith, get-insert v id done w'.states, i'.constructed v before)
        | inr same ↦ ground (arith, get-insert v id done w'.states, ==_iff id v)
      ];
      registered = λ v m. elim ((Memᴰ-concat v id w'.construction_order).0 m) [
        | inl before ↦ i'.registered v before
        | inr same ↦ rw same k
      ];
      on_path = λ v h. rw leave_path (leave_on_path v h);
      chain = rw leave_path i.chain;
      constructs =
          Constructs-concat (requirements g) [] w'.construction_order id i'.constructs
            (λ m. ground (arith, i'.constructed id m))
            (All-tabulate (λ d. Memᴰ d w'.construction_order) (requirements g id)
              (λ d m.
                i'.finished d
                  (All-lookup (λ d. get d w'.states ≡ some done) (requirements g id) deps d m)));
    }

  pub leave-Post :
      (id : Ident) (w : Walk) (r : Visit)
      → Inv w
      → contains_key id g.definitions ≡ true
      → get id w.states ≡ none
      → Post (AllDone (requirements g id)) (enter id w) r
      → Post (IsDone id) w (r >>= λ w'. ok (leave id w'))
  leave-Post id w (ok w') i k fresh (e, i', x, a) = (
    rw e (drop_last-concat w.active_path id),
    leave-Inv id w w' e i i' k
        (x id active (ground (arith, get-insert id id active w.states, ==_refl id))) a,
    Extends-leave w.states w'.states id active done fresh x,
    ground (arith, get-insert id id done w'.states, ==_refl id),
  )
  leave-Post id w (err f) i k fresh h = h
  leave-Post id w panic i k fresh h = h
  leave-Post id w out_of_fuel i k fresh h = h
