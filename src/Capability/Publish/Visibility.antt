-- ===== src/Capability/Publish/Visibility.antt =====
-- What a publication and a withdrawal change of what scopes see.
use graph_core.Base.{
  ℕ, suc, ◌≡◌, refl, subst, inl, inr, true, false, List, [], ◌∷◌, some, Memᴰ, arith, Bool-cases,
  if◌then◌else◌,
}
use graph_core.Base.Order.{◌==◌, ==_iff, ==_refl, nat_ord}
use graph_core.Base.BTreeMap.{BTreeMap, get, insert, remove, get-insert}
use graph_core.Core.Ident.{Ident, ident_ord}
use graph_core.Capability.Scope.{
  CapabilityEntry, opens, Scope, ScopeState, Scopes, state_at, with_state, is_open, lookup, nearest,
}
use graph_core.Capability.Publish.{with_entry, without_entry}

-- The same states but for the entries of one scope.
pub record EntriesChange (w w' : Scopes) (key : ℕ) (es : BTreeMap Ident CapabilityEntry)
    : Type 0 where
  pub here : state_at w' key ≡ record (state_at w key) { entries = es }
  pub elsewhere : (k : ℕ) → (key == k) ≡ false → state_at w' k ≡ state_at w k

module _ (w w' : Scopes) (key : ℕ) (es : BTreeMap Ident CapabilityEntry)
    (change : EntriesChange w w' key es) where
  is_open-same : (k : ℕ) → is_open w' k ≡ is_open w k
  unfolding is_open
  is_open-same k = elim (Bool-cases (key == k)) [
    | inl e ↦
        let same : key ≡ k = (==_iff key k).0 e in
        subst (λ j. opens (state_at w' j).lifecycle ≡ opens (state_at w j).lifecycle) same
          (rw (change.here) refl)
    | inr e ↦ rw (change.elsewhere k e) refl
  ]

  -- Scopes outside the one that changed and its descendants see the same.
  pub lookup-outside : (ks : List ℕ) (id : Ident) → ¬ Memᴰ key ks → lookup w' ks id ≡ lookup w ks id
  unfolding lookup
  lookup-outside [] id out = refl
  lookup-outside (k ∷ ks) id out =
      let other : (key == k) ≡ false = elim (Bool-cases (key == k)) [
        | inl e ↦ absurd (out (Memᴰ.head ((==_iff key k).0 e)))
        | inr e ↦ e
      ] in
      rw (is_open-same k, change.elsewhere k other, lookup-outside ks id (λ m. out (Memᴰ.tail m)))
        refl

  entry_same :
      (k : ℕ) (id : Ident)
      → get id es ≡ get id (state_at w key).entries
      → get id (state_at w' k).entries ≡ get id (state_at w k).entries
  entry_same k id same = elim (Bool-cases (key == k)) [
    | inl e ↦
        let here : key ≡ k = (==_iff key k).0 e in
        subst (λ j. get id (state_at w' j).entries ≡ get id (state_at w j).entries) here
          (rw (change.here) same)
    | inr e ↦ rw (change.elsewhere k e) refl
  ]

  -- An identifier whose entry is the same is seen as before.
  pub lookup-other :
      (ks : List ℕ) (id : Ident)
      → get id es ≡ get id (state_at w key).entries
      → lookup w' ks id ≡ lookup w ks id
  unfolding lookup
  lookup-other [] id same = refl
  lookup-other (k ∷ ks) id same =
      rw (is_open-same k, entry_same k id same, lookup-other ks id same) refl

  -- The scope itself sees its entries, and else what its parent sees.
  pub lookup-here :
      (ks : List ℕ) (id : Ident)
      → is_open w key ≡ true
      → lookup w' (key ∷ ks) id ≡ nearest (get id es) (lookup w' ks id)
  unfolding lookup
  lookup-here ks id o = rw (is_open-same key, o, change.here) refl

pub with_entries-EntriesChange :
    (w v : Scopes) (key : ℕ) (es : BTreeMap Ident CapabilityEntry)
    → v.states ≡ w.states
    → EntriesChange w (with_state v key (record (state_at w key) { entries = es })) key es
with_entries-EntriesChange w v key es same =
    let st : ScopeState = record (state_at w key) { entries = es } in
    let found : (k : ℕ)
        → get k (insert key st v.states) ≡ (if key == k then some st else get k w.states) =
      λ k. rw same (get-insert k key st w.states) in
    record {
      here = ground (arith, found key, ==_refl key);
      elsewhere = λ k other. ground (arith, found k, other);
    }

pub with_entry-EntriesChange :
    (w : Scopes) (s : Scope) (e : CapabilityEntry)
    → EntriesChange w (with_entry w s e) s.key (insert e.definition.id e (state_at w s.key).entries)
with_entry-EntriesChange w s e =
    with_entries-EntriesChange w (record w { next_entry = suc w.next_entry }) s.key _ refl

pub without_entry-EntriesChange :
    (w : Scopes) (s : Scope) (id : Ident)
    → EntriesChange w (without_entry w s id) s.key (remove id (state_at w s.key).entries)
without_entry-EntriesChange w s id = with_entries-EntriesChange w w s.key _ refl
