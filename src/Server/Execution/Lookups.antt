-- ===== src/Server/Execution/Lookups.antt =====
-- The lookups of a preparation, and what prepareBoundExecution and prepareInferenceExecution of
-- internal/server/inference_execution.go decide from them.
use grokcli2api_go.Prelude.{
  ℕ, String, not, ◌&&◌, ◌||◌, Option, none, some, List, [], ◌∷◌, ◌==◌, if◌then◌else◌, with_option,
  has, ltb, ◌⊎◌, inl, inr,
}
use grokcli2api_go.Prelude.Text.{trim_space, join_text}
use grokcli2api_go.Prelude.Map.{found}
use grokcli2api_go.Pool.{Affinity, affinity_none, affinity_hard, Digest}
use grokcli2api_go.Continuity.{Binding, Store, lookup_binding}
use grokcli2api_go.Server.Execution.{
  StateHandle, previous_response, is_opaque, Failure, state_unavailable, Lookup, Pending,
  state_affinity, handle_key, same_route, unknown_handle,
}

-- A lookup that was not made.
abbrev pub no_lookup : Lookup
no_lookup = record {
  handle = record { kind = previous_response; value = "" };
  affinity = record { key = ""; mode = affinity_none; tenant = "" };
  key = "";
  found = none;
}

abbrev pub session_affinity : String → String → Affinity
session_affinity tenant value = record {
  key = join_text "session:" value;
  mode = affinity_hard;
  tenant = tenant;
}

abbrev pub look_up : Digest → ℕ → String → String → StateHandle → Affinity → Store → Store × Lookup
look_up d now tenant model handle affinity s =
    let looked = lookup_binding d now tenant affinity model s in
    (looked.0, record { handle = handle; affinity = affinity; key = looked.1; found = looked.2 })

-- The lookup of the session that the header X-Grok-Session-ID names.
abbrev pub look_up_session : Digest → ℕ → String → String → String → Store → Store × Lookup
look_up_session d now tenant model header s =
    let value = trim_space header in
    if value == ""
    then (s, no_lookup)
    else look_up d now tenant model no_lookup.handle (session_affinity tenant value) s

-- The lookups of the handles, and the opaque handles that the store does not know.
unfoldable pub look_up_states :
    Digest → ℕ → String → String → List StateHandle → Store → Store × List Lookup × List StateHandle
look_up_states d now tenant model [] s = (s, [], [])
look_up_states d now tenant model (h ∷ handles) s =
    let looked = look_up d now tenant model h (state_affinity tenant h) s in
    let rest = look_up_states d now tenant model handles looked.0 in
    if is_opaque h && not (found looked.1.found)
    then (rest.0, rest.1, h ∷ rest.2)
    else (rest.0, looked.1 ∷ rest.1, rest.2)

-- The state that the rendered request carries has to be known and of the selected route.
unfoldable pub bound_lookups : String → Binding → List String → List Lookup → Failure ⊎ List Lookup
bound_lookups tenant selected preserved [] = inr []
bound_lookups tenant selected preserved (item ∷ state) =
    let rest = bound_lookups tenant selected preserved state in
    if not (has (handle_key item.handle) preserved)
    then rest
    else with_option item.found
        (if not (tenant == "public") then inl (unknown_handle item.handle) else rest)
        (λ binding.
          if not (same_route selected binding)
          then inl state_unavailable
          else elim rest [ inl failure ↦ inl failure | inr bound ↦ inr (item ∷ bound) ])

abbrev pub pending_of : Lookup → Pending
pending_of item = record {
  key = item.key;
  affinity = item.affinity;
  state = if item.handle.value == "" then none else some item.handle;
}

-- The loop with `seenBindings`.
unfoldable pub pending_bindings : List String → List Lookup → List Pending
pending_bindings seen [] = []
pending_bindings seen (item ∷ bindings) =
    let skipped = pending_bindings seen bindings in
    let added = pending_of item ∷ pending_bindings (item.key ∷ seen) bindings in
    if item.key == "" || has item.key seen then skipped else added

abbrev pub turn_of_lookup : Lookup → ℕ
turn_of_lookup item = with_option item.found 0 (λ b. b.next_turn)

-- The lookup with the highest turn, the first of several.
unfoldable pub latest : Lookup → List Lookup → Lookup
latest reserve [] = reserve
latest reserve (item ∷ bindings) =
    latest (if ltb (turn_of_lookup reserve) (turn_of_lookup item) then item else reserve) bindings

-- Without a known binding: the failure of a handle that a route could carry.
unfoldable pub refused_state : String → List String → List Lookup → Option Failure
refused_state tenant potential [] = none
refused_state tenant potential (item ∷ state) =
    let rest = refused_state tenant potential state in
    if not (has (handle_key item.handle) potential)
    then rest
    else if found item.found
    then some state_unavailable
    else if not (tenant == "public")
    then some (unknown_handle item.handle)
    else rest

-- The first handle that a route could carry.
unfoldable pub carried_state : List String → List Lookup → Option Lookup
carried_state potential [] = none
carried_state potential (item ∷ state) =
    let rest = carried_state potential state in
    if has (handle_key item.handle) potential then some item else rest
