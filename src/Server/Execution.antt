-- ===== src/Server/Execution.antt =====
-- internal/server/inference_execution.go: which account, backend, session and turn a request is sent with,
-- from what the continuity store knows of its session and its state. The HTTP side is not modelled.
pub mod Lookups
pub mod Prepare
pub mod Owned
pub mod Within
pub mod Held
pub mod Cleaned
pub mod Free
pub mod Bound
pub mod Isolated
pub mod Session
pub mod Commit
pub mod Collector
pub mod Kept
pub mod Collected
pub mod Continued
mod Tests
use grokcli2api_go.Prelude.{
  ℕ, ◌+◌, ◌%◌, ◌^◌, String, Bool, true, false, not, ◌&&◌, ◌||◌, Option, none, some, List, [], ◌∷◌,
  ◌++◌, ◌==◌, if◌then◌else◌, with_option, has, ◌⊎◌, inl, inr,
}
use grokcli2api_go.Prelude.Text.{trim_space, join_text}
use grokcli2api_go.Prelude.Json.{Json, Fields, get_field, text_of, fields_of, array_of}
use grokcli2api_go.Catalog.{
  ModelDescriptor, no_descriptor, backend_chat_completions, backend_responses, backend_messages,
}
use grokcli2api_go.Catalog.Aggregate.{AggregatedModel}
use grokcli2api_go.Pool.{Affinity, affinity_hard}
use grokcli2api_go.Pool.AffinityKeys.{nul}
use grokcli2api_go.Continuity.{Binding}

-- StateHandleKind of internal/inference/plan.go
pub data HandleKind : Type 0 where
  previous_response : HandleKind
  opaque_token : HandleKind

pub record StateHandle : Type 0 where
  pub kind : HandleKind
  pub value : String

abbrev pub is_opaque : StateHandle → Bool
is_opaque h = elim h.kind [ previous_response ↦ false | opaque_token ↦ true ]

-- A request rendered for a backend, as far as the server reads it.
pub record Attempt : Type 0 where
  pub backend : String
  pub body : Fields

-- What the server asks of the request's plan and of the pool: the methods of RequestPlan, with none for
-- an error of Render, and AccountDescriptor, AggregatedModels and HasProvisionalModel of the pool.
pub record Planner (Plan : Type 0) : Type 0 where
  pub model : Plan → String
  pub state_handles : Plan → List StateHandle
  pub has_state : Plan → Bool
  pub without_opaque_state : Plan → List StateHandle → Plan
  pub render : Plan → ModelDescriptor → Option Attempt
  pub account_descriptor : String → String → Option ModelDescriptor
  pub aggregated_models : List AggregatedModel
  pub has_provisional_model : String → Bool
  pub equal_fold : String → String → Bool

-- continuityRequestError, and the errors of Render.
pub data Failure : Type 0 where
  state_unavailable : Failure
  previous_not_found : Failure
  state_not_found : Failure
  render_failed : Failure

-- continuityLookup. The session's own lookup has a handle without a value.
pub record Lookup : Type 0 where
  pub handle : StateHandle
  pub affinity : Affinity
  pub key : String
  pub found : Option Binding

-- pendingContinuityBinding
pub record Pending : Type 0 where
  pub key : String
  pub affinity : Affinity
  pub state : Option StateHandle

-- inferenceExecution, with the identity's fields written out.
pub record Execution (Plan : Type 0) : Type 0 where
  pub tenant : String
  pub model : String
  pub plan : Plan
  pub affinity : Affinity
  pub pinned : String
  pub expected_backend : String
  pub session_id : String
  pub conversation_id : String
  pub turn_index : ℕ
  pub pending : List Pending

-- provisionalModelDescriptor
unfoldable pub provisional_descriptor : String → ModelDescriptor
provisional_descriptor model = record no_descriptor {
  id = model;
  wire_model = model;
  backend = backend_chat_completions;
  supported_in_api = true;
}

-- stateHandleAffinity
unfoldable pub state_affinity : String → StateHandle → Affinity
state_affinity tenant h = record {
  key = join_text (if is_opaque h then "signature:" else "previous:") h.value;
  mode = affinity_hard;
  tenant = tenant;
}

-- stateHandleKey
unfoldable pub handle_key : StateHandle → String
handle_key h =
    join_text (if is_opaque h then "opaque_token" else "previous_response")
      (join_text nul (trim_space h.value))

-- sameContinuityRoute
unfoldable pub same_route : Binding → Binding → Bool
same_route left right =
    not (left.account_id == "")
    && (left.account_id == right.account_id
        && (left.model == right.model
            && (left.backend == right.backend && left.session_id == right.session_id)))

-- unknownStateHandle
unfoldable pub unknown_handle : StateHandle → Failure
unknown_handle h = if is_opaque h then state_not_found else previous_not_found

-- The keys of the handle of a kind with a value, if there is a value.
abbrev pub add_handle : HandleKind → String → List String
add_handle kind value =
    let h : StateHandle = record { kind = kind; value = trim_space value } in
    if h.value == "" then [] else handle_key h ∷ []

module _ {Plan : Type 0} (planner : Planner Plan) where
  -- The tokens of reasoning items.
  abbrev pub reasoning_keys : List Json → List String
  reasoning_keys [] = []
  reasoning_keys (raw ∷ input) =
      let item = fields_of raw in
      let rest = reasoning_keys input in
      if planner.equal_fold (trim_space (text_of (get_field "type" item))) "reasoning"
      then add_handle opaque_token (text_of (get_field "encrypted_content" item)) ++ rest
      else rest

  -- The signatures of thinking blocks.
  abbrev pub signature_keys : List Json → List String
  signature_keys [] = []
  signature_keys (raw ∷ content) =
      let block = fields_of raw in
      let kind = trim_space (text_of (get_field "type" block)) in
      let rest = signature_keys content in
      if planner.equal_fold kind "thinking" || planner.equal_fold kind "redacted_thinking"
      then add_handle opaque_token (text_of (get_field "signature" block)) ++ rest
      else rest

  abbrev pub message_keys : List Json → List String
  message_keys [] = []
  message_keys (raw ∷ messages) =
      signature_keys (array_of (get_field "content" (fields_of raw))) ++ message_keys messages

  -- renderedStateHandleSet
  unfoldable pub rendered_handles : Attempt → List String
  rendered_handles attempt =
      add_handle previous_response (text_of (get_field "previous_response_id" attempt.body))
      ++ (if attempt.backend == backend_responses
          then reasoning_keys (array_of (get_field "input" attempt.body))
          else if attempt.backend == backend_messages
          then message_keys (array_of (get_field "messages" attempt.body))
          else [])

  -- renderForBinding: a backend that is another one now is a failure as well.
  unfoldable pub render_for_binding : Plan → Binding → Failure ⊎ Attempt
  render_for_binding plan binding =
      let model = planner.model plan in
      let descriptor =
        with_option (planner.account_descriptor binding.account_id model)
          (provisional_descriptor model) (λ d. d) in
      if not (descriptor.backend == binding.backend)
      then inl state_unavailable
      else with_option (planner.render plan descriptor) (inl render_failed) inr

  abbrev pub rendered_or_none : Option Attempt → List String
  rendered_or_none o = with_option o [] rendered_handles

  -- The descriptor that planPreservedStateHandles renders for a backend of a model.
  abbrev pub backend_descriptor : Plan → AggregatedModel → String → ModelDescriptor
  backend_descriptor plan m backend = record no_descriptor {
    id = planner.model plan;
    wire_model = planner.model plan;
    backend = backend;
    supports_reasoning_effort = m.supports_reasoning_effort;
    reasoning_efforts = m.reasoning_efforts;
  }

  abbrev pub backends_keys : Plan → AggregatedModel → List String → List String
  backends_keys plan m [] = []
  backends_keys plan m (backend ∷ backends) =
      rendered_or_none (planner.render plan (backend_descriptor plan m backend))
      ++ backends_keys plan m backends

  abbrev pub models_keys : Plan → List AggregatedModel → List String
  models_keys plan [] = []
  models_keys plan (m ∷ models) =
      (if m.id == planner.model plan then backends_keys plan m m.api_backends else [])
      ++ models_keys plan models

  -- planPreservedStateHandles
  unfoldable pub preserved_handles : Plan → List String
  preserved_handles plan =
      if not (planner.has_state plan)
      then []
      else models_keys plan planner.aggregated_models
        ++ (if planner.has_provisional_model (planner.model plan)
            then rendered_or_none
                (planner.render plan (provisional_descriptor (planner.model plan)))
            else [])
