-- ===== src/Capability/Scope.antt =====
-- crates/capability-graph/src/runtime.rs: scopes, their hierarchy and their lookups.
--
-- The states of all scopes that share one topology lock are one store, and a scope is the key of its
-- state with those of its ancestors, nearest first: `parent` never changes. `alive` is what
-- `Weak::upgrade` says of a child: whether somebody still holds it.
use graph_core.Base.{
  ℕ, zero, suc, Bool, true, false, List, [], ◌∷◌, ◌++◌, Option, none, some, eqb, not, ◌||◌,
  if◌then◌else◌,
}
use graph_core.Base.Results.{Result, ok, out_of_fuel, ◌>>=◌}
use graph_core.Base.Order.{nat_ord}
use graph_core.Base.BTreeMap.{BTreeMap, get, insert, contains_key, values}
use graph_core.Core.Ident.{Ident, ident_ord}
use graph_core.Capability.Definition.{CapabilityDefinition}
use graph_core.Capability.Generation.{Generation}
use graph_core.Capability.Resolver.{CapabilityGraph, from_definitions}
use graph_core.Capability.Entry.{
  EntryId, CapabilityHandle, handle, ResolvedDependencies, ScopeError,
}

pub data Lifecycle : Type 0 where
  opened closing closed_down : Lifecycle

pub record CapabilityEntry : Type 0 where
  pub definition : CapabilityDefinition
  pub dependencies : ResolvedDependencies
  pub generation : Generation
  pub entry_id : EntryId

abbrev pub handle_of : CapabilityEntry → CapabilityHandle
handle_of e = handle e.definition e.generation e.entry_id e.dependencies

pub record Scope : Type 0 where
  pub key : ℕ
  pub ancestors : List ℕ

abbrev pub chain : Scope → List ℕ
chain s = s.key ∷ s.ancestors

pub record ScopeState : Type 0 where
  pub entries : BTreeMap Ident CapabilityEntry
  pub lifecycle : Lifecycle
  pub children : List Scope

-- `next_key` is the key of the next scope, `next_entry` the counter `NEXT_ENTRY_ID`.
pub record Scopes : Type 0 where
  pub states : BTreeMap ℕ ScopeState
  pub next_key : ℕ
  pub next_entry : ℕ

-- No scope has a key without a state.
abbrev pub no_state : ScopeState
no_state = record { entries = []; lifecycle = closed_down; children = [] }

abbrev pub state_at : Scopes → ℕ → ScopeState
state_at w k = elim (get k w.states) [ none ↦ no_state | some st ↦ st ]

abbrev pub with_state : Scopes → ℕ → ScopeState → Scopes
with_state w k st = record w { states = insert k st w.states }

abbrev pub opens : Lifecycle → Bool
opens opened = true
opens closing = false
opens closed_down = false

unfoldable pub is_open : Scopes → ℕ → Bool
is_open w k = opens (state_at w k).lifecycle

abbrev pub new_state : Lifecycle → ScopeState
new_state l = record { entries = []; lifecycle = l; children = [] }

unfoldable pub root : Scopes → Scopes × Scope
root w = (
  record w { states = insert w.next_key (new_state opened) w.states; next_key = suc w.next_key },
  record { key = w.next_key; ancestors = [] },
)

-- A child of a scope that is not open is created closed.
unfoldable pub child : Scopes → Scope → Scopes × Scope
child w s =
    let c : Scope = record { key = w.next_key; ancestors = chain s } in
    let st = new_state (if is_open w s.key then opened else closed_down) in
    let parent = state_at w s.key in
    (
      record w {
        states =
            insert s.key (record parent { children = parent.children ++ c ∷ [] })
              (insert w.next_key st w.states);
        next_key = suc w.next_key;
      },
      c,
    )

abbrev pub local_handle : Option CapabilityEntry → Option CapabilityHandle
local_handle none = none
local_handle (some e) = some (handle_of e)

-- `or_else` of a local entry and the parent's answer.
abbrev pub nearest : Option CapabilityEntry → Option CapabilityHandle → Option CapabilityHandle
nearest none above = above
nearest (some e) above = some (handle_of e)

-- `get`, from the scope up.
unfoldable pub lookup : Scopes → List ℕ → Ident → Option CapabilityHandle
lookup w [] id = none
lookup w (k ∷ ks) id =
    let above = lookup w ks id in
    if is_open w k then nearest (get id (state_at w k).entries) above else none

abbrev pub get_visible : Scopes → Scope → Ident → Option CapabilityHandle
get_visible w s id = lookup w (chain s) id

unfoldable pub get_local : Scopes → Scope → Ident → Option CapabilityHandle
get_local w s id =
    if is_open w s.key then local_handle (get id (state_at w s.key).entries) else none

unfoldable pub has_local : Scopes → ℕ → Ident → Bool
has_local w k id = contains_key id (state_at w k).entries

-- The loop that adds the entries of a scope to what is visible above it.
abbrev pub add_entries :
    BTreeMap Ident CapabilityEntry
    → BTreeMap Ident CapabilityDefinition
    → BTreeMap Ident CapabilityDefinition
add_entries [] m = m
add_entries ((id, e) ∷ es) m = add_entries es (insert id e.definition m)

unfoldable pub visible_definitions : Scopes → List ℕ → BTreeMap Ident CapabilityDefinition
visible_definitions w [] = []
visible_definitions w (k ∷ ks) =
    let above = visible_definitions w ks in
    if is_open w k then add_entries (state_at w k).entries above else []

unfoldable pub visible_graph : Scopes → Scope → CapabilityGraph
visible_graph w s = from_definitions (values (visible_definitions w (chain s)))

unfoldable pub visible_graph_with_entries : Scopes → Scope → CapabilityGraph
visible_graph_with_entries w s =
    from_definitions
      (values (add_entries (state_at w s.key).entries (visible_definitions w s.ancestors)))

module _ (alive : ℕ → Bool) where
  -- The loop over the children; `rec` lists what is below one.
  unfoldable pub list_below :
      (ℕ → Result ScopeError (List Scope)) → List Scope → Result ScopeError (List Scope)
  list_below rec [] = ok []
  list_below rec (c ∷ cs) =
      let rest = list_below rec cs in
      if alive c.key
      then (rec c.key >>= λ below. rest >>= λ later. ok ((c ∷ below) ++ later))
      else rest

  -- The fuel bounds the depth of the hierarchy.
  unfoldable pub descendants_from : ℕ → Scopes → ℕ → Result ScopeError (List Scope)
  descendants_from zero w k = out_of_fuel
  descendants_from (suc fuel) w k = list_below (descendants_from fuel w) (state_at w k).children

  -- A child has a greater key than its parent.
  unfoldable pub live_descendants : Scopes → Scope → Result ScopeError (List Scope)
  live_descendants w s = descendants_from (suc w.next_key) w s.key

-- The loop of `candidate_affects`, from the descendant up.
unfoldable pub candidate_affects : Scopes → ℕ → List ℕ → Ident → Bool
candidate_affects w self [] capability = false
candidate_affects w self (k ∷ ks) capability =
    let above = candidate_affects w self ks capability in
    if eqb k self
    then true
    else if not (is_open w k) || has_local w k capability
    then false
    else above
