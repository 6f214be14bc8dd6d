-- ===== src/Server/Execution/Tests.antt =====
-- Runs of the preparation of an execution.
mod Isolation
use Prim.Native.Char.{Char}
use grokcli2api_go.Prelude.{
  Bool, eq_refl, map, String, ◌≡◌, refl, true, false, some, List, [], ◌∷◌, arith, ◌==◌, has, ◌⊎◌,
  inl, inr,
}
use grokcli2api_go.Prelude.Text.{trim_space, to_lower, texts_differ}
use grokcli2api_go.Prelude.Map.{lookup, insert, remove}
use grokcli2api_go.Prelude.Json.{string, no_fields, one_field, get_field, find_field}
use grokcli2api_go.Catalog.{no_descriptor, backend_responses}
use grokcli2api_go.Pool.{Affinity, affinity_none, Digest}
use grokcli2api_go.Continuity.{Binding, Store, continuity_key, lookup_binding, reserve_turn}
use grokcli2api_go.Server.Execution.{
  StateHandle, previous_response, Planner, Attempt, Execution, Failure, state_affinity,
  render_for_binding, same_route, handle_key, rendered_handles,
}
use grokcli2api_go.Server.Execution.Lookups.{
  session_affinity, look_up_states, bound_lookups, pending_bindings, latest,
}
use grokcli2api_go.Server.Execution.Prepare.{
  prepare_inference, new_execution, select_state, prepare_bound,
}
use grokcli2api_go.Server.Execution.Commit.{bind_pending, response_state_tokens, visit}
use grokcli2api_go.Server.Execution.Session.{prepare_known_session}
use grokcli2api_go.Server.Execution.Collector.{
  Collector, new_collector, collect, finish_signature, write_signature, finish_all, sort_indices,
  insert_index, tokens_of, observe, observe_kind, observe_all,
}
use grokcli2api_go.Server.Execution.Collected.{
  piece, ended, Emitted, event_of, signature_text, held, signature_collected,
}
use grokcli2api_go.Prelude.Int.{pos}
use grokcli2api_go.Prelude.Table.{find, put, drop}
use grokcli2api_go.Server.Execution.Continued.{session_continues}

abbrev plain_digest : Digest
plain_digest = record { hex = λ s. s; byte = λ s i. 0 }

-- A plan is its list of handles, and a request for it names the response r1.
abbrev planner : Planner (List StateHandle)
planner = record {
  model = λ plan. "grok-4";
  state_handles = λ plan. plan;
  has_state = λ plan. true;
  without_opaque_state = λ plan unknown. [];
  render = λ plan d. some (record {
    backend = d.backend;
    body = one_field "previous_response_id" (string "r1") no_fields;
  });
  account_descriptor = λ account model. some (record no_descriptor { backend = backend_responses });
  aggregated_models = [];
  has_provisional_model = λ model. false;
  equal_fold = λ a b. a == b;
}

abbrev attempt : Attempt
attempt = record {
  backend = backend_responses;
  body = one_field "previous_response_id" (string "r1") no_fields;
}

abbrev response_handle : StateHandle
response_handle = record { kind = previous_response; value = "r1" }

abbrev soft : Affinity
soft = record { key = ""; mode = affinity_none; tenant = "t" }

abbrev owned : Binding
owned = record {
  kind = "previous";
  account_id = "a";
  model = "grok-4";
  backend = backend_responses;
  session_id = "s";
  next_turn = 3;
  expires_at = 100;
}

abbrev handle_store_key : String
handle_store_key = continuity_key plain_digest "t" (state_affinity "t" response_handle) "grok-4"

abbrev session_store_key : String
session_store_key = continuity_key plain_digest "t" (session_affinity "t" "h") "grok-4"

abbrev store : Store
store = record {
  ttl = 50;
  limit = 4;
  bindings = (handle_store_key, owned) ∷ (session_store_key, owned) ∷ [];
  dirty = false;
  has_wake = true;
}

known_example :
    (x : Execution (List StateHandle)) × ((prepare_inference planner plain_digest 10 "t" soft "l"
        "h" [] store).1
      ≡ inr x)
    × (x.pinned ≡ "a")
    × (x.expected_backend ≡ backend_responses)
    × (x.session_id ≡ "s")
    × (x.turn_index ≡ 3)
    × (lookup session_store_key
          (prepare_inference planner plain_digest 10 "t" soft "l" "h" [] store).0.bindings
        ≡ some (record owned { next_turn = 4; expires_at = 60 }))
unfolding lookup continuity_key state_affinity trim_space render_for_binding
known_example =
    prepare_known_session planner plain_digest 10 "t" soft "l" "h" [] store owned attempt
      (texts_differ "h" "" refl) refl (texts_differ session_store_key "" refl) refl (ground arith)
      (ground arith) (texts_differ "a" "" refl) refl

continues_example :
    (x : Execution (List StateHandle)) × (prepare_inference planner plain_digest 10 "t" soft "l"
        "new" [] store
      ≡ (store, inr x))
    × (x.pinned ≡ "")
    × (y : Execution (List StateHandle)) × ((prepare_inference planner plain_digest 30 "t" soft "m"
          "new" []
          (bind_pending planner 20 x "b" attempt x.session_id 1 store)).1
        ≡ inr y)
    × (y.pinned ≡ "b")
    × (y.expected_backend ≡ backend_responses)
    × (y.session_id ≡ x.session_id)
    × (y.turn_index ≡ 1)
unfolding lookup continuity_key state_affinity trim_space render_for_binding
continues_example =
    session_continues planner plain_digest 10 20 30 "t" soft "l" "m" "new" [] [] store "b" attempt
      attempt 1 (texts_differ "new" "" refl) refl refl refl
      (texts_differ (continuity_key plain_digest "t" (session_affinity "t" "new") "grok-4") "" refl)
      refl (texts_differ "b" "" refl) (texts_differ "grok-4" "" refl) (texts_differ "l" "" refl)
      (ground arith) (ground arith) (λ b account backend. rw backend refl)

-- The signature of block 0 in two pieces, around a piece of block 1 and the end of that block.
abbrev emitted : List Emitted
emitted = piece (pos 0) "ab" ∷ piece (pos 1) "x" ∷ ended (pos 1) ∷ piece (pos 0) "cd" ∷ []

abbrev same_char : Char → Char
same_char c = c

abbrev fold : String → String → Bool
fold s t = s == t

abbrev collected : Collector
collected = observe_all same_char fold (map event_of emitted) new_collector

collected_example :
    (has (trim_space (signature_text (pos 0) emitted)) (tokens_of collected) ≡ true)
    × (has (trim_space (signature_text (pos 0) emitted)) (
          tokens_of (
            observe_all same_char fold
              (map event_of (ended (pos 0) ∷ []))
              (observe same_char fold (event_of (ended (pos 0))) collected)))
        ≡ true)
unfolding held find trim_space
collected_example =
    signature_collected same_char fold eq_refl (pos 0) emitted (map event_of (ended (pos 0) ∷ []))
      new_collector refl (refl, tt) (texts_differ "abcd" "" refl)

-- Of the two signatures the one whose block ended first comes first.
collected_tokens :
    tokens_of (observe_all same_char fold (map event_of emitted) new_collector) ≡ "x" ∷ "abcd" ∷ []
unfolding tokens_of observe_all observe observe_kind write_signature finish_signature finish_all
    collect sort_indices insert_index response_state_tokens visit to_lower trim_space get_field
    find_field find put drop has
collected_tokens = refl
