-- ===== src/Server/Execution/Commit.antt =====
-- commitContinuity, commitStreamContinuity and bindPendingContinuity of
-- internal/server/inference_execution.go: what a response that succeeded binds.
use Prim.Native.Char.{Char}
use grokcli2api_go.Prelude.{
  ℕ, ◌+◌, ◌%◌, ◌^◌, String, Bool, false, not, ◌&&◌, ◌||◌, Option, List, [], ◌∷◌, ◌++◌, ◌==◌,
  if◌then◌else◌, with_option, has,
}
use grokcli2api_go.Prelude.Text.{trim_space, to_lower}
use grokcli2api_go.Prelude.Json.{
  Json, null, boolean, number, string, array, object, Items, no_items, one_item, Fields, no_fields,
  one_field, get_field, text_of, as_object,
}
use grokcli2api_go.Pool.{Digest}
use grokcli2api_go.Continuity.{Store, bind, bind_response, bind_state_token}
use grokcli2api_go.Server.Execution.{
  Attempt, Planner, Pending, Execution, handle_key, rendered_handles,
}

-- responseIdentifier
unfoldable pub response_identifier : Fields → String
response_identifier payload =
    let id = text_of (get_field "id" payload) in
    if not (id == "")
    then id
    else with_option (as_object (get_field "response" payload)) ""
        (λ response. text_of (get_field "id" response))

-- The token of one object that `visit` of responseStateTokens looks at.
abbrev pub token_of : (Char → Char) → Fields → String
token_of other value =
    let kind = to_lower other (trim_space (text_of (get_field "type" value))) in
    if kind == "thinking" || kind == "redacted_thinking"
    then trim_space (text_of (get_field "signature" value))
    else if kind == "reasoning"
    then trim_space (text_of (get_field "encrypted_content" value))
    else ""

abbrev pub add_token : String → List String → List String
add_token token tokens = if token == "" || has token tokens then tokens else tokens ++ token ∷ []

-- `visit` of responseStateTokens, in the order of the fields.
unfoldable mutual
  pub visit : (Char → Char) → Json → List String → List String
  visit other (array items) tokens = visit_items other items tokens
  visit other (object fields) tokens =
      visit_fields other fields (add_token (token_of other fields) tokens)
  visit other null tokens = tokens
  visit other (boolean b) tokens = tokens
  visit other (number n) tokens = tokens
  visit other (string s) tokens = tokens

  pub visit_items : (Char → Char) → Items → List String → List String
  visit_items other no_items tokens = tokens
  visit_items other (one_item v rest) tokens = visit_items other rest (visit other v tokens)

  pub visit_fields : (Char → Char) → Fields → List String → List String
  visit_fields other no_fields tokens = tokens
  visit_fields other (one_field n v rest) tokens = visit_fields other rest (visit other v tokens)

-- responseStateTokens
unfoldable pub response_state_tokens : (Char → Char) → Fields → List String
response_state_tokens other payload = visit other (object payload) []

-- The turn after the one that was sent; a request has one.
abbrev pub turn_after : Option ℕ → ℕ
turn_after turn = with_option turn 1 (λ n. (n + 1) % 2 ^ 64)

module _ {Plan : Type 0} (planner : Planner Plan) where
  -- The loop of bindPendingContinuity; `preserved` has the handles that the attempt carried.
  unfoldable pub bind_each :
      ℕ → List String → Execution Plan → String → String → String → ℕ → List Pending → Store → Store
  bind_each now preserved x account_id backend session_id next_turn [] s = s
  bind_each now preserved x account_id backend session_id next_turn (pending ∷ rest) s =
      let dropped = with_option pending.state false (λ h. not (has (handle_key h) preserved)) in
      let bound =
        bind now pending.key pending.affinity account_id x.model backend session_id next_turn s in
      bind_each now preserved x account_id backend session_id next_turn rest
        (if dropped then s else bound)

  -- bindPendingContinuity
  unfoldable pub bind_pending : ℕ → Execution Plan → String → Attempt → String → ℕ → Store → Store
  bind_pending now x account_id attempt session_id next_turn s =
      bind_each now (rendered_handles planner attempt) x account_id attempt.backend session_id
        next_turn x.pending s

  abbrev pub bind_tokens :
      Digest → ℕ → Execution Plan → String → String → String → ℕ → List String → Store → Store
  bind_tokens d now x account_id backend session_id next_turn [] s = s
  bind_tokens d now x account_id backend session_id next_turn (token ∷ tokens) s =
      bind_tokens d now x account_id backend session_id next_turn tokens
        (bind_state_token d now x.tenant token account_id x.model backend session_id next_turn s)

  -- What both commits do with the identifier of the response and the tokens it carried.
  abbrev pub commit_with :
      Digest
      → ℕ
      → Execution Plan
      → String
      → Attempt
      → String
      → Option ℕ
      → Bool
      → String
      → List String
      → Store
      → Store
  commit_with d now x account_id attempt session_id turn is_responses response_id tokens s =
      let next = turn_after turn in
      let bound = bind_pending now x account_id attempt session_id next s in
      let named =
        if is_responses && not (response_id == "")
        then bind_response d now x.tenant response_id account_id x.model attempt.backend session_id
            next bound
        else bound in
      bind_tokens d now x account_id attempt.backend session_id next tokens named

  -- commitContinuity
  unfoldable pub commit_continuity :
      (Char → Char)
      → Digest
      → ℕ
      → Execution Plan
      → String
      → Attempt
      → String
      → Option ℕ
      → Bool
      → Fields
      → Store
      → Store
  commit_continuity other d now x account_id attempt session_id turn is_responses payload s =
      commit_with d now x account_id attempt session_id turn is_responses
        (response_identifier payload) (response_state_tokens other payload) s

  -- commitStreamContinuity; `success` and `response_id` are the adapter's, `tokens` the collector's.
  unfoldable pub commit_stream :
      Digest
      → ℕ
      → Bool
      → Execution Plan
      → String
      → Attempt
      → String
      → Option ℕ
      → Bool
      → String
      → List String
      → Store
      → Store
  commit_stream d now success x account_id attempt session_id turn is_responses response_id tokens
        s =
      if not success
      then s
      else commit_with d now x account_id attempt session_id turn is_responses response_id tokens s
