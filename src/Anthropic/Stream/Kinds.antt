-- ===== src/Anthropic/Stream/Kinds.antt =====
-- The cases of the two switches of Handle of internal/anthropic/stream.go.
use grokcli2api_go.Prelude.{String, [], ◌∷◌, ◌==◌, if◌then◌else◌, has}

-- The cases of the switch over the event's name.
pub data Kind : Type 0 where
  response_begun : Kind
  item_added : Kind
  part_added : Kind
  text_delta_kind : Kind
  thinking_delta_kind : Kind
  arguments_delta_kind : Kind
  annotation_added : Kind
  part_done : Kind
  arguments_done : Kind
  item_done : Kind
  response_over : Kind
  error_kind : Kind
  other_kind : Kind

unfoldable pub kind_of : String → Kind
unfolding has
kind_of name =
    if has name ("response.created" ∷ "response.in_progress" ∷ "response.queued" ∷ [])
    then response_begun
    else if name == "response.output_item.added"
    then item_added
    else if name == "response.content_part.added"
    then part_added
    else if has name ("response.output_text.delta" ∷ "response.refusal.delta" ∷ [])
    then text_delta_kind
    else if has name
        ("response.reasoning_summary_text.delta" ∷ "response.reasoning_text.delta" ∷ [])
    then thinking_delta_kind
    else if has name
        ("response.function_call_arguments.delta" ∷ "response.custom_tool_call_input.delta" ∷ [])
    then arguments_delta_kind
    else if name == "response.output_text.annotation.added"
    then annotation_added
    else if has name (
        "response.content_part.done" ∷ "response.output_text.done" ∷ "response.refusal.done"
        ∷ "response.reasoning_summary_text.done" ∷ "response.reasoning_text.done" ∷ [])
    then part_done
    else if has name
        ("response.function_call_arguments.done" ∷ "response.custom_tool_call_input.done" ∷ [])
    then arguments_done
    else if name == "response.output_item.done"
    then item_done
    else if has name ("response.completed" ∷ "response.incomplete" ∷ "response.failed" ∷ [])
    then response_over
    else if name == "error"
    then error_kind
    else other_kind

-- The cases of the switch over the type of an item that is added.
pub data ItemKind : Type 0 where
  reasoning_item : ItemKind
  call_item : ItemKind
  web_search_item : ItemKind
  server_tool_item : ItemKind
  other_item : ItemKind

unfoldable pub item_kind : String → ItemKind
unfolding has
item_kind kind =
    if kind == "reasoning"
    then reasoning_item
    else if has kind ("function_call" ∷ "custom_tool_call" ∷ [])
    then call_item
    else if kind == "web_search_call"
    then web_search_item
    else if has kind (
        "file_search_call" ∷ "code_interpreter_call" ∷ "computer_call" ∷ "mcp_call"
        ∷ "image_generation_call" ∷ "local_shell_call" ∷ "shell_call" ∷ "apply_patch_call"
        ∷ "mcp_list_tools" ∷ [])
    then server_tool_item
    else other_item
