-- ===== src/Anthropic/Stream/Cases.antt =====
-- What Handle of internal/anthropic/stream.go does in the cases that take more than a line.
use grokcli2api_go.Prelude.{
  String, Bool, true, false, not, ◌&&◌, ◌||◌, [], ◌∷◌, ◌==◌, if◌then◌else◌, with_option, is_nil,
}
use grokcli2api_go.Prelude.Map.{lookup}
use grokcli2api_go.Prelude.Text.{join_text}
use grokcli2api_go.Prelude.Json.{
  Json, string, object, Fields, no_fields, one_field, get_field, text_of,
}
use grokcli2api_go.Anthropic.Stops.{Text, push}
use grokcli2api_go.Anthropic.Values.{
  to_text, of_text, string_or, anthropic_id, raw_item_id, web_search_input, web_search_results,
}
use grokcli2api_go.Anthropic.Stream.{
  Block, BlockKind, text_block, thinking_block, tool_use_block, server_tool_use_block,
  search_result_block, Translator, Fresh, Moved, stay, and_then, typed, text_delta, write_block,
  send_delta, open_block, close_block, flush_text,
}
use grokcli2api_go.Anthropic.Stream.Kinds.{
  ItemKind, reasoning_item, call_item, web_search_item, server_tool_item, other_item,
}

abbrev pub thinking_content : Fields
thinking_content = typed "thinking" (one_field "thinking" (string "") no_fields)

abbrev pub text_content : Fields
text_content = typed "text" (one_field "text" (string "") no_fields)

-- The content of a tool use.
abbrev pub tool_content : String → String → Json → Json → Fields
tool_content kind id name input =
    typed kind
      (one_field "id" (string id) (one_field "name" name (one_field "input" input no_fields)))

abbrev pub partial_json : String → Fields
partial_json s = typed "input_json_delta" (one_field "partial_json" (string s) no_fields)

abbrev pub set_arguments : String → Block → Block
set_arguments s b = record b { arguments = s }

abbrev pub set_sent : Block → Block
set_sent b = record b { sent_args = true }

-- The cases of response.output_item.added.
unfoldable pub add_item : Fresh → ItemKind → String → Fields → Translator → Moved
add_item fresh reasoning_item key item t =
    if t.thinking_enabled then open_block key thinking_block thinking_content t else stay t
add_item fresh call_item key item t =
    let id = anthropic_id fresh.item "toolu_" (raw_item_id item) in
    let called = record t { stop_reason = "tool_use" } in
    and_then
      (open_block key tool_use_block
        (tool_content "tool_use" id (get_field "name" item) (object no_fields)) called)
      (write_block key (set_arguments (text_of (get_field "arguments" item))))
add_item fresh web_search_item key item t =
    let id = anthropic_id fresh.item "srvtoolu_" (raw_item_id item) in
    open_block key server_tool_use_block
      (tool_content "server_tool_use" id (string "web_search") (object (web_search_input item))) t
add_item fresh server_tool_item key item t =
    let id = anthropic_id fresh.item "srvtoolu_" (raw_item_id item) in
    open_block key server_tool_use_block
      (tool_content "server_tool_use" id (get_field "type" item) (get_field "action" item)) t
add_item fresh other_item key item t = stay t

abbrev pub note_match : Text → Translator → Moved
note_match matched t =
    if is_nil matched
    then stay t
    else stay (record t { stop_reason = "stop_sequence"; stop_sequence = of_text matched })

-- The case of response.output_text.delta: the text goes through the stop filter.
unfoldable pub add_text : String → String → Translator → Moved
add_text key value t =
    let pushed = push t.stop_filter (to_text value) in
    let after = record t { text_key = key; stop_filter = pushed.0 } in
    and_then
      (if is_nil pushed.1 then stay after else send_delta key (text_delta (of_text pushed.1)) after)
      (note_match pushed.2)

-- The case of the argument deltas.
unfoldable pub add_arguments : Fresh → String → Fields → Translator → Moved
add_arguments fresh key payload t =
    let raw_id =
      string_or (get_field "call_id" payload) (string_or (get_field "item_id" payload) "") in
    let id = anthropic_id fresh.item "toolu_" raw_id in
    let called = record t { stop_reason = "tool_use" } in
    let opened =
      open_block key tool_use_block
        (tool_content "tool_use" id (get_field "name" payload) (object no_fields)) called in
    and_then
      (and_then (with_option (lookup key t.blocks) opened (λ block. stay t))
        (write_block key set_sent))
      (send_delta key (partial_json (text_of (get_field "delta" payload))))

abbrev pub is_text : BlockKind → Bool
is_text text_block = true
is_text kind = false

abbrev pub is_tool_use : BlockKind → Bool
is_tool_use tool_use_block = true
is_tool_use kind = false

abbrev pub is_thinking : BlockKind → Bool
is_thinking thinking_block = true
is_thinking kind = false

-- The case of response.content_part.done and of the texts that are done.
unfoldable pub end_part : String → Translator → Moved
end_part key t =
    and_then
      (with_option (lookup key t.blocks) (stay t)
        (λ block. if is_text block.kind then flush_text key t else stay t))
      (close_block key)

-- The arguments of a call that no delta brought.
abbrev pub late_arguments : String → Fields → Block → Translator → Moved
late_arguments key payload block t =
    let args =
      string_or (get_field "arguments" payload)
        (string_or (get_field "input" payload) block.arguments) in
    if block.sent_args || args == ""
    then stay t
    else and_then (send_delta key (partial_json args) t) (write_block key set_sent)

-- The case of response.function_call_arguments.done.
unfoldable pub end_arguments : String → Fields → Translator → Moved
end_arguments key payload t =
    and_then
      (with_option (lookup key t.blocks) (stay t) (λ block. late_arguments key payload block t))
      (close_block key)

-- What response.output_item.done sends to the block of its item before it is closed.
abbrev pub last_deltas : String → Fields → Block → Translator → Moved
last_deltas key item block t =
    let args =
      if block.arguments == "" then text_of (get_field "arguments" item) else block.arguments in
    let signature = text_of (get_field "encrypted_content" item) in
    let signed = typed "signature_delta" (one_field "signature" (string signature) no_fields) in
    and_then
      (if is_tool_use block.kind && not block.sent_args && not (args == "")
        then send_delta key (partial_json args) t
        else stay t)
      (λ u.
        if is_thinking block.kind && u.thinking_enabled && not (signature == "")
        then send_delta key signed u
        else stay u)

abbrev pub search_result : Fresh → Fields → Fields
search_result fresh item =
    let raw_id = raw_item_id item in
    typed "web_search_tool_result" (
      one_field "tool_use_id" (string (anthropic_id fresh.item "srvtoolu_" raw_id))
        (one_field "content" (web_search_results (object item ∷ []) raw_id []) no_fields))

-- The case of response.output_item.done.
unfoldable pub end_item : Fresh → String → Fields → Translator → Moved
end_item fresh key item t =
    let closed =
      and_then (with_option (lookup key t.blocks) (stay t) (λ block. last_deltas key item block t))
        (close_block key) in
    let result_key = join_text key ":result" in
    if text_of (get_field "type" item) == "web_search_call"
    then and_then
        (and_then closed (open_block result_key search_result_block (search_result fresh item)))
        (close_block result_key)
    else closed
