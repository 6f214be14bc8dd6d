-- ===== src/Server/Execution/Held.antt =====
-- The lookups of a preparation against the store before it: they find nothing but what it has.
use grokcli2api_go.Prelude.{
  ℕ, ◌<◌, String, ◌≡◌, refl, Bool, true, false, not, ◌&&◌, some, List, [], ◌∷◌, if◌then◌else◌, has,
  All, All-imp, ◌⊎◌, inl, inr,
}
use grokcli2api_go.Prelude.Map.{lookup, found}
use grokcli2api_go.Pool.{Digest}
use grokcli2api_go.Continuity.{Binding, Store, continuity_key}
use grokcli2api_go.Server.Execution.{
  StateHandle, Lookup, state_affinity, handle_key, same_route, is_opaque,
}
use grokcli2api_go.Server.Execution.Lookups.{look_up, look_up_states}
use grokcli2api_go.Server.Execution.Owned.{carried, IsOwned}
use grokcli2api_go.Server.Execution.Within.{
  Within, Within-refl, Within-compose, lookup_binding-Within,
}

module _ (now : ℕ) where
  module _ (d : Digest) (tenant model : String) where
    -- The store has a binding of the handle, of the route of `b`, that has not expired.
    abbrev pub IsHeld : Store → Binding → StateHandle → Type 0
    IsHeld s b h =
        (c : Binding) × (lookup (continuity_key d tenant (state_affinity tenant h) model) s.bindings
          ≡ some c)
        × (now < c.expires_at)
        × (same_route b c ≡ true)

    abbrev pub NotSent : List String → StateHandle → Type 0
    NotSent keys h = has (handle_key h) keys ≡ false

    -- A lookup of the handle, in a store that has nothing new, for which P holds.
    abbrev pub Source : Store → (Lookup → Type 0) → StateHandle → Type 0
    Source s P h =
        (t : Store) × Within now s t
        × P (look_up d now tenant model h (state_affinity tenant h) t).1

    All-select_cons :
        (P : Lookup → Type 0) (b : Bool) (item : Lookup) (items : List Lookup)
        → All P (if b then item ∷ items else items)
        → (b ≡ false) ⊎ P item
    All-select_cons P true item items h = inr h.0
    All-select_cons P false item items h = inl refl

    All-select_rest :
        (P : Lookup → Type 0) (b : Bool) (item : Lookup) (items : List Lookup)
        → All P (if b then item ∷ items else items)
        → All P items
    All-select_rest P true item items h = h.1
    All-select_rest P false item items h = h

    cover_step :
        (P : Lookup → Type 0) (keys : List String) (unknown : Bool) (item : Lookup)
        (rest : Store × List Lookup × List StateHandle)
        → let r : Store × List Lookup × List StateHandle =
            if unknown
            then (rest.0, rest.1, item.handle ∷ rest.2)
            else (rest.0, item ∷ rest.1, rest.2) in
          All P (carried keys r.1)
          → All (NotSent keys) r.2
          → (NotSent keys item.handle ⊎ P item)
            × All P (carried keys rest.1)
            × All (NotSent keys) rest.2
    cover_step P keys true item rest o n = (inl n.0, o, n.1)
    cover_step P keys false item rest o n =
        let sent = has (handle_key item.handle) keys in
        (
          All-select_cons P sent item (carried keys rest.1) o,
          All-select_rest P sent item (carried keys rest.1) o,
          n,
        )

    opaque_step :
        (opaque lost : Bool) (h : StateHandle) (item : Lookup)
        (rest : Store × List Lookup × List StateHandle)
        → is_opaque h ≡ opaque
        → All (λ h. is_opaque h ≡ true) rest.2
        → let r : Store × List Lookup × List StateHandle =
            if opaque && lost
            then (rest.0, rest.1, h ∷ rest.2)
            else (rest.0, item ∷ rest.1, rest.2) in
          All (λ h. is_opaque h ≡ true) r.2
    opaque_step true true h item rest e k = (e, k)
    opaque_step true false h item rest e k = k
    opaque_step false lost h item rest e k = k

    -- Each handle that was looked up is not sent, or P holds of its lookup.
    pub look_up_states_covers :
        (P : Lookup → Type 0) (keys : List String) (handles : List StateHandle) (s : Store)
        → All P (carried keys (look_up_states d now tenant model handles s).1)
        → All (NotSent keys) (look_up_states d now tenant model handles s).2
        → All (λ h. NotSent keys h ⊎ Source s P h) handles
    unfolding look_up_states
    look_up_states_covers P keys [] s o n = tt
    look_up_states_covers P keys (h ∷ handles) s o n =
        let looked = look_up d now tenant model h (state_affinity tenant h) s in
        let rest = look_up_states d now tenant model handles looked.0 in
        let step =
          cover_step P keys (is_opaque h && not (found looked.1.found)) looked.1 rest o n in
        let before = (lookup_binding-Within now d tenant (state_affinity tenant h) model s).0 in
        let lift : (x : StateHandle)
            → NotSent keys x ⊎ Source looked.0 P x
            → NotSent keys x ⊎ Source s P x =
          λ x known. elim known [
            | inl left ↦ inl left
            | inr from ↦ inr (from.0, Within-compose now s looked.0 from.0 before from.1, from.2)
          ] in
        (
          elim step.0 [ inl left ↦ inl left | inr sent ↦ inr (s, Within-refl now s, sent) ],
          All-imp lift handles (look_up_states_covers P keys handles looked.0 step.1 step.2),
        )

    -- The unknown handles are opaque.
    pub look_up_states_opaque :
        (handles : List StateHandle) (s : Store)
        → All (λ h. is_opaque h ≡ true) (look_up_states d now tenant model handles s).2
    unfolding look_up_states
    look_up_states_opaque [] s = tt
    look_up_states_opaque (h ∷ handles) s =
        let looked = look_up d now tenant model h (state_affinity tenant h) s in
        let rest = look_up_states d now tenant model handles looked.0 in
        let later = look_up_states_opaque handles looked.0 in
        opaque_step (is_opaque h) (not (found looked.1.found)) h looked.1 rest refl later

    -- A sent handle whose lookup is owned is held by the store.
    pub Source-IsHeld :
        (s : Store) (b : Binding) (h : StateHandle) → Source s (IsOwned b) h → IsHeld s b h
    Source-IsHeld s b h (t, before, (c, e, same)) =
        let at = (lookup_binding-Within now d tenant (state_affinity tenant h) model t).1 c e in
        let first =
          before (continuity_key d tenant (state_affinity tenant h) model) at.0 at.1 at.2 in
        (first.0, first.1, first.2, first.3 b (at.3 b same))
