-- ===== src/Anthropic/Stream/Handle.antt =====
-- Handle of internal/anthropic/stream.go: one event of the upstream's Responses stream.
use grokcli2api_go.Prelude.{
  String, Bool, not, ◌&&◌, Option, none, some, [], ◌∷◌, ◌==◌, if◌then◌else◌, with_option, has,
}
use grokcli2api_go.Prelude.Int.{ℤ}
use grokcli2api_go.Prelude.Json.{
  string, object, Fields, no_fields, one_field, get_field, text_of, as_object, fields_of,
}
use grokcli2api_go.Anthropic.Values.{string_or, stream_citation, event_key}
use grokcli2api_go.Anthropic.Stream.{
  text_block, thinking_block, error_event, Translator, Fresh, Moved, stay, and_then, typed,
  send_delta, ensure_start, open_block, finish,
}
use grokcli2api_go.Anthropic.Stream.Kinds.{
  Kind, response_begun, item_added, part_added, text_delta_kind, thinking_delta_kind,
  arguments_delta_kind, annotation_added, part_done, arguments_done, item_done, response_over,
  error_kind, other_kind, kind_of, item_kind,
}
use grokcli2api_go.Anthropic.Stream.Cases.{
  text_content, thinking_content, add_item, add_text, add_arguments, end_part, end_arguments,
  end_item,
}

-- An event as the upstream client reads it: whether its data is empty or the mark of the end, and what the data
-- decodes to, or none when it is no JSON object.
pub record Upstream : Type 0 where
  pub name : String
  pub is_blank : Bool
  pub decoded : Option Fields

unfoldable pub name_of : Upstream → Fields → String
name_of e payload = if e.name == "" then text_of (get_field "type" payload) else e.name

-- What Handle does, by the case.
module _ (format_number : ℤ → String) (fresh : Fresh) (payload : Fields) where
  abbrev key_of : String → String
  key_of nested = event_key format_number payload (fields_of (get_field nested payload))

  abbrev nested_in : String → Fields
  nested_in name = fields_of (get_field name payload)

  abbrev plain_key : String
  plain_key = event_key format_number payload no_fields

  abbrev response_of : Option Fields
  response_of = as_object (get_field "response" payload)

  -- The event that response.output_text.annotation.added gives.
  abbrev annotate : Fields → Translator → Moved
  annotate citation t =
      send_delta plain_key
        (typed "citations_delta" (one_field "citation" (object citation) no_fields)) t

  unfoldable pub handle_kind : Kind → Translator → Moved
  handle_kind response_begun t = ensure_start fresh response_of t
  handle_kind item_added t = and_then (ensure_start fresh none t) (
      add_item fresh (item_kind (text_of (get_field "type" (nested_in "item")))) (key_of "item")
        (nested_in "item"))
  handle_kind part_added t = and_then (ensure_start fresh none t) (λ u.
      if has (text_of (get_field "type" (nested_in "part")))
        ("output_text" ∷ "text" ∷ "refusal" ∷ [])
      then open_block (key_of "part") text_block text_content u
      else stay u)
  handle_kind text_delta_kind t =
      and_then (and_then (ensure_start fresh none t) (open_block plain_key text_block text_content))
        (add_text plain_key (text_of (get_field "delta" payload)))
  handle_kind thinking_delta_kind t =
      let content =
        typed "thinking_delta"
          (one_field "thinking" (string (text_of (get_field "delta" payload))) no_fields) in
      if t.thinking_enabled
      then and_then
          (and_then (ensure_start fresh none t)
            (open_block plain_key thinking_block thinking_content))
          (send_delta plain_key content)
      else stay t
  handle_kind arguments_delta_kind t =
      and_then (ensure_start fresh none t) (add_arguments fresh plain_key payload)
  handle_kind annotation_added t =
      with_option (stream_citation (as_object (get_field "annotation" payload))) (stay t)
        (λ citation. annotate citation t)
  handle_kind part_done t = end_part plain_key t
  handle_kind arguments_done t = end_arguments plain_key payload t
  handle_kind item_done t = end_item fresh (key_of "item") (nested_in "item") t
  handle_kind response_over t = and_then (ensure_start fresh response_of t) (finish response_of)
  handle_kind error_kind t =
      (t, error_event (string_or (get_field "message" payload) "upstream stream error") ∷ [])
  handle_kind other_kind t = stay t

abbrev pub is_over : String → Bool
is_over name = has name ("response.completed" ∷ "response.incomplete" ∷ "response.failed" ∷ [])

-- Handle: the state and the events, or none for data that does not decode.
unfoldable pub handle : (ℤ → String) → Fresh → Upstream → Translator → Option Moved
handle format_number fresh e t = if e.is_blank then some (stay t) else elim e.decoded [
  | none ↦ none
  | some payload ↦
      let name = name_of e payload in
      some (
        if not (t.stop_sequence == "") && not (is_over name)
        then stay t
        else handle_kind format_number fresh payload (kind_of name) t)
]
