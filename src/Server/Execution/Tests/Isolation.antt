-- ===== src/Server/Execution/Tests/Isolation.antt =====
-- The preparation of a request with a known and an unknown state handle.
use Prim.Native.String.append
use Prim.Native.Char.{code}
use grokcli2api_go.Prelude.{
  String, ◌≡◌, refl, Bool, true, false, some, List, [], ◌∷◌, ◌==◌, has, eqb, if◌then◌else◌, ◌⊎◌,
  inl, inr,
}
use grokcli2api_go.Prelude.Text.{trim_space}
use grokcli2api_go.Prelude.Map.{lookup, insert, remove}
use grokcli2api_go.Prelude.Json.{
  Fields, string, object, array, one_item, no_items, no_fields, one_field, get_field, find_field,
}
use grokcli2api_go.Catalog.{no_descriptor, backend_responses}
use grokcli2api_go.Pool.{Affinity, affinity_none, Digest}
use grokcli2api_go.Continuity.{Binding, Store, continuity_key, lookup_binding, reserve_turn}
use grokcli2api_go.Server.Execution.{
  StateHandle, previous_response, opaque_token, is_opaque, Planner, Execution, Failure,
  state_affinity, render_for_binding, same_route, handle_key, rendered_handles,
}
use grokcli2api_go.Server.Execution.Lookups.{
  look_up_states, bound_lookups, pending_bindings, latest,
}
use grokcli2api_go.Server.Execution.Prepare.{
  prepare_inference, new_execution, select_state, prepare_bound,
}

abbrev plain_digest : Digest
plain_digest = record { hex = λ s. s; byte = λ s i. 0 }

abbrev plain_body : Fields
plain_body = one_field "previous_response_id" (string "r1") no_fields

-- With a reasoning item that carries an opaque token.
abbrev token_body : Fields
token_body = one_field "previous_response_id" (string "r1") (
    one_field "input"
      (array (
        one_item
          (object (
            one_field "type" (string "reasoning")
              (one_field "encrypted_content" (string "tok") no_fields)))
          no_items))
      no_fields)

abbrev has_opaque : List StateHandle → Bool
has_opaque [] = false
has_opaque (h ∷ handles) = if is_opaque h then true else has_opaque handles

abbrev without_opaque : List StateHandle → List StateHandle
without_opaque [] = []
without_opaque (h ∷ handles) =
    if is_opaque h then without_opaque handles else h ∷ without_opaque handles

-- A plan is its list of handles.
abbrev planner : Planner (List StateHandle)
planner = record {
  model = λ plan. "grok-4";
  state_handles = λ plan. plan;
  has_state = λ plan. true;
  without_opaque_state = λ plan unknown. without_opaque plan;
  render = λ plan d.
      some
        (record { backend = d.backend; body = if has_opaque plan then token_body else plain_body });
  account_descriptor = λ account model. some (record no_descriptor { backend = backend_responses });
  aggregated_models = [];
  has_provisional_model = λ model. false;
  equal_fold = λ a b. a == b;
}

abbrev starts_with_p : String → Bool
starts_with_p String.[] = false
starts_with_p (String.◌∷◌ c s) = eqb (code c) 112

abbrev soft : Affinity
soft = record { key = ""; mode = affinity_none; tenant = "t" }

-- A response that the store knows, and a token that it does not know.
abbrev response_handle : StateHandle
response_handle = record { kind = previous_response; value = "r1" }

abbrev token_handle : StateHandle
token_handle = record { kind = opaque_token; value = "tok" }

abbrev handles : List StateHandle
handles = response_handle ∷ token_handle ∷ []

abbrev owned : Binding
owned = record {
  kind = "previous";
  account_id = "a";
  model = "grok-4";
  backend = backend_responses;
  session_id = "s";
  next_turn = 3;
  expires_at = 100;
}

abbrev store : Store
store = record {
  ttl = 50;
  limit = 4;
  bindings =
      (continuity_key plain_digest "t" (state_affinity "t" response_handle) "grok-4", owned) ∷ [];
  dirty = false;
  has_wake = true;
}

abbrev result : Store × (Failure ⊎ Execution (List StateHandle))
result = prepare_inference planner plain_digest 10 "t" soft "l" "" handles store

abbrev prepared : Execution (List StateHandle)
prepared = elim result.1 [
  | inl failure ↦ new_execution planner "t" soft "l" "grok-4" []
  | inr x ↦ x
]

-- It is pinned, and its plan has lost the token.
prepared_pinned : (prepared.pinned ≡ "a") × (prepared.plan ≡ response_handle ∷ [])
unfolding prepare_inference look_up_states bound_lookups pending_bindings latest select_state
    prepare_bound lookup_binding continuity_key reserve_turn same_route handle_key state_affinity
    rendered_handles render_for_binding trim_space lookup insert remove get_field find_field has
prepared_pinned = (refl, refl)
