-- ===== src/Server/MessagesStream.antt =====
-- The stream adapter of internal/server/backend_stream.go for a Messages client and a Responses upstream:
-- backendStreamAdapter with responsesToMessages set. Other pairs of protocols are not modelled.
pub mod Sound
pub mod Whole
pub mod Total
use grokcli2api_go.Prelude.{
  String, Bool, true, false, not, ◌&&◌, ◌||◌, Option, none, some, List, [], ◌∷◌, ◌++◌, ◌==◌,
  if◌then◌else◌, with_option,
}
use grokcli2api_go.Prelude.Int.{ℤ}
use grokcli2api_go.Prelude.Json.{Json, null, string, object, Fields, get_field, text_of, as_object}
use grokcli2api_go.Anthropic.Stream.{Event, error_event, Translator, Fresh, Moved, new_translator}
use grokcli2api_go.Anthropic.Stream.Handle.{Upstream, name_of, handle}

-- backendStreamAdapter, as far as this pair of protocols uses it.
pub record Adapter : Type 0 where
  pub id : String
  pub terminal : Bool
  pub success : Bool
  pub translator : Translator

-- newBackendStreamAdapter; `id` is drawn by grok.NewID.
unfoldable pub new_adapter : String → String → Bool → List String → Adapter
new_adapter id model thinking_enabled stop_sequences = record {
  id = id;
  terminal = false;
  success = false;
  translator = new_translator model thinking_enabled stop_sequences;
}

-- firstNonEmptyString
abbrev pub first_non_empty : List String → Fields → String
first_non_empty [] values = ""
first_non_empty (key ∷ keys) values =
    let rest = first_non_empty keys values in
    let value = text_of (get_field key values) in if value == "" then rest else value

-- errorMessage
unfoldable pub error_message : Json → String
error_message (string s) = s
error_message (object fields) = first_non_empty ("message" ∷ "error" ∷ "code" ∷ []) fields
error_message value = "upstream stream error"

-- A value that is not nil.
abbrev pub present : Json → Option Json
present null = none
present value = some value

-- The message of an upstream failure.
unfoldable pub failure_message : Fields → String
failure_message payload =
    let inner = with_option (as_object (get_field "response" payload)) null (get_field "error") in
    with_option (present (get_field "error" payload))
      (with_option (present inner) "upstream response failed" error_message) error_message

-- encodeError for a Messages client
unfoldable pub encode_error : String → Event
encode_error message = error_event (if message == "" then "upstream stream error" else message)

abbrev pub Sent : Type 0
Sent = Adapter × List Event

-- The id of the response replaces the adapter's.
abbrev pub note_id : Fields → Adapter → Adapter
note_id payload a =
    let id =
      with_option (as_object (get_field "response" payload)) ""
        (λ response. text_of (get_field "id" response)) in
    if id == "" then a else record a { id = id }

abbrev pub is_failure : String → Bool
is_failure name = name == "response.failed" || name == "error"

abbrev pub is_success : String → Bool
is_success name = name == "response.completed" || name == "response.incomplete"

-- What handleResponsesToMessages does with the translator's events.
unfoldable pub after_translation : String → Adapter → Moved → Sent
after_translation name a m =
    let translated = record a { translator = m.0 } in
    (
      if is_success name then record translated { terminal = true; success = true } else translated,
      m.1,
    )

-- handleResponsesToMessages, on data that decodes
unfoldable pub handle_payload : (ℤ → String) → Fresh → Upstream → Fields → Adapter → Option Sent
handle_payload format_number fresh e payload a =
    let name = name_of e payload in
    let noted = note_id payload a in
    if is_failure name
    then some (
      record noted { terminal = true; success = false },
      encode_error (failure_message payload) ∷ [],
    )
    else with_option (handle format_number fresh e noted.translator) none
        (λ m. some (after_translation name noted m))

-- Handle of the adapter: none for data that is not JSON.
unfoldable pub adapter_handle : (ℤ → String) → Fresh → Upstream → Adapter → Option Sent
adapter_handle format_number fresh e a =
    if a.terminal || e.is_blank
    then some (a, [])
    else with_option e.decoded none (λ payload. handle_payload format_number fresh e payload a)

-- Finish of the adapter
unfoldable pub adapter_finish : Adapter → Sent
adapter_finish a = if a.terminal then (a, []) else (
  record a { terminal = true; success = false },
  encode_error "upstream stream ended before a terminal event" ∷ [],
)

-- The events of a stream in order, each with the ids it would draw, until one is not JSON.
unfoldable pub adapter_run : (ℤ → String) → List (Fresh × Upstream) → Adapter → Option Sent
adapter_run format_number [] a = some (a, [])
adapter_run format_number ((fresh, e) ∷ es) a =
    with_option (adapter_handle format_number fresh e a) none
      (λ m. with_option (adapter_run format_number es m.0) none (λ n. some (n.0, m.1 ++ n.1)))
