-- ===== src/Anthropic/Stream.antt =====
-- StreamTranslator of internal/anthropic/stream.go: its state, the events it makes, and the operations
-- on its blocks that the handlers share.
pub mod Kinds
pub mod Cases
pub mod Handle
use grokcli2api_go.Prelude.{
  ℕ, zero, suc, String, Bool, true, false, not, ◌&&◌, ◌||◌, Option, none, some, List, [], ◌∷◌, ◌++◌,
  ◌==◌, if◌then◌else◌, is_nil, ltb,
}
use grokcli2api_go.Prelude.Int.{ℤ, pos}
use grokcli2api_go.Prelude.Map.{Map, lookup}
use grokcli2api_go.Prelude.Json.{
  Json, string, Fields, no_fields, one_field, get_field, text_of, as_object, fields_of,
}
use grokcli2api_go.Anthropic.Stops.{Text, StopFilter, new_stop_filter, flush}
use grokcli2api_go.Anthropic.Values.{to_text, of_text, string_or, anthropic_id, first_number}

-- The kinds that openBlock is called with.
pub data BlockKind : Type 0 where
  text_block : BlockKind
  thinking_block : BlockKind
  tool_use_block : BlockKind
  server_tool_use_block : BlockKind
  search_result_block : BlockKind

-- streamBlock
pub record Block : Type 0 where
  pub index : ℕ
  pub kind : BlockKind
  pub arguments : String
  pub sent_args : Bool
  pub closed : Bool

-- Event: the name is the constructor's, and the fields are those that vary in its data.
pub data Event : Type 0 where
  message_start : String → String → ℤ → Event
  content_block_start : ℕ → Fields → Event
  content_block_delta : ℕ → Fields → Event
  content_block_stop : ℕ → Event
  message_delta : String → String → ℤ → Event
  message_stop : Event
  error_event : String → Event

pub record Translator : Type 0 where
  pub model : String
  pub thinking_enabled : Bool
  pub message_id : String
  pub started : Bool
  pub finished : Bool
  pub next_index : ℕ
  pub blocks : Map Block
  pub input_tokens : ℤ
  pub output_tokens : ℤ
  pub stop_reason : String
  pub stop_sequence : String
  pub text_key : String
  pub stop_filter : StopFilter

abbrev pub texts : List String → List Text
texts [] = []
texts (s ∷ ss) = to_text s ∷ texts ss

-- NewStreamTranslatorWithOptions
unfoldable pub new_translator : String → Bool → List String → Translator
unfolding new_stop_filter
new_translator model thinking_enabled stop_sequences = record {
  model = model;
  thinking_enabled = thinking_enabled;
  message_id = "";
  started = false;
  finished = false;
  next_index = 0;
  blocks = [];
  input_tokens = pos 0;
  output_tokens = pos 0;
  stop_reason = "end_turn";
  stop_sequence = "";
  text_key = "";
  stop_filter = new_stop_filter (texts stop_sequences);
}

-- The ids that grok.NewID would draw for the message and for an item.
pub record Fresh : Type 0 where
  pub message : String
  pub item : String

-- The state after an operation and the events it appended.
abbrev pub Moved : Type 0
Moved = Translator × List Event

unfoldable pub stay : Translator → Moved
stay t = (t, [])

unfoldable pub and_then : Moved → (Translator → Moved) → Moved
and_then m f = let next = f m.0 in (next.0, m.1 ++ next.1)

abbrev pub typed : String → Fields → Fields
typed kind rest = one_field "type" (string kind) rest

-- Writes to a block that the map holds, through its pointer.
unfoldable pub adjust : String → (Block → Block) → Map Block → Map Block
adjust key f [] = []
adjust key f ((k, b) ∷ m) =
    let rest = adjust key f m in if k == key then (k, f b) ∷ m else (k, b) ∷ rest

abbrev pub read_usage : Option Fields → ℤ → String → String → ℤ
read_usage none old key other = old
read_usage (some usage) old key other = first_number (key ∷ other ∷ []) usage

-- What startEvent reads from the response.
abbrev pub read_response : Fresh → Option Fields → Translator → Translator
read_response fresh none t = t
read_response fresh (some response) t = record t {
  message_id = anthropic_id fresh.message "msg_" (string_or (get_field "id" response) "");
  input_tokens =
      read_usage (as_object (get_field "usage" response)) t.input_tokens "input_tokens"
        "prompt_tokens";
}

-- startEvent
unfoldable pub start_event : Fresh → Option Fields → Translator → Moved
start_event fresh response t =
    let read = read_response fresh response t in
    let id =
      if read.message_id == "" then anthropic_id fresh.message "msg_" "" else read.message_id in
    (
      record read { started = true; message_id = id },
      message_start id read.model read.input_tokens ∷ [],
    )

-- ensureStart of Handle
abbrev pub ensure_start : Fresh → Option Fields → Translator → Moved
ensure_start fresh response t = if t.started then stay t else start_event fresh response t

-- openBlock
unfoldable pub open_block : String → BlockKind → Fields → Translator → Moved
unfolding lookup
open_block key kind content t = elim (lookup key t.blocks) [
  | some existing ↦ (t, [])
  | none ↦ (
    record t {
      next_index = suc t.next_index;
      blocks =
          (
            key,
            record {
              index = t.next_index;
              kind = kind;
              arguments = "";
              sent_args = false;
              closed = false;
            },
          )
          ∷ t.blocks;
    },
    content_block_start t.next_index content ∷ [],
  )
]

-- delta
unfoldable pub delta : String → Fields → Translator → List Event
unfolding lookup
delta key content t = elim (lookup key t.blocks) [
  | none ↦ []
  | some block ↦ if block.closed then [] else content_block_delta block.index content ∷ []
]

-- Appending the event of a delta.
unfoldable pub send_delta : String → Fields → Translator → Moved
send_delta key content t = (t, delta key content t)

-- Writing to the block under a key, if there is one.
unfoldable pub write_block : String → (Block → Block) → Translator → Moved
write_block key f t = (record t { blocks = adjust key f t.blocks }, [])

-- closeBlock
unfoldable pub close_block : String → Translator → Moved
unfolding lookup adjust
close_block key t = elim (lookup key t.blocks) [
  | none ↦ (t, [])
  | some block ↦ if block.closed then (t, []) else (
    record t { blocks = adjust key (λ b. record b { closed = true }) t.blocks },
    content_block_stop block.index ∷ [],
  )
]

abbrev pub text_delta : String → Fields
text_delta s = typed "text_delta" (one_field "text" (string s) no_fields)

-- flushText
unfoldable pub flush_text : String → Translator → Moved
flush_text key t =
    let flushed = flush t.stop_filter in
    let after = record t { stop_filter = flushed.0 } in
    if not (t.stop_sequence == "")
    then stay t
    else if is_nil flushed.1
    then stay after
    else send_delta key (text_delta (of_text flushed.1)) after

-- The keys in the order of the blocks' indices, as sort.Slice leaves them.
abbrev pub insert_key : String × ℕ → List (String × ℕ) → List (String × ℕ)
insert_key x [] = x ∷ []
insert_key x (y ∷ ys) = let rest = insert_key x ys in if ltb y.1 x.1 then y ∷ rest else x ∷ y ∷ ys

abbrev pub sort_keys : Map Block → List (String × ℕ)
sort_keys [] = []
sort_keys ((k, b) ∷ m) = insert_key (k, b.index) (sort_keys m)

unfoldable pub close_keys : List (String × ℕ) → Translator → Moved
close_keys [] t = stay t
close_keys (k ∷ ks) t = and_then (close_block k.0 t) (close_keys ks)

abbrev pub name_sequence : String → Translator → Translator
name_sequence sequence t =
    if t.stop_sequence == "" && not (sequence == "")
    then record t { stop_reason = "stop_sequence"; stop_sequence = sequence }
    else t

abbrev pub cut_short : String → Translator → Translator
cut_short reason t =
    if t.stop_sequence == "" && reason == "max_output_tokens"
    then record t { stop_reason = "max_tokens" }
    else t

-- What finish reads from the response.
abbrev pub read_end : Option Fields → Translator → Translator
read_end none t = t
read_end (some response) t =
    let used = record t {
      output_tokens =
          read_usage (as_object (get_field "usage" response)) t.output_tokens "output_tokens"
            "completion_tokens";
    } in
    cut_short (text_of (get_field "reason" (fields_of (get_field "incomplete_details" response))))
      (name_sequence (text_of (get_field "stop_sequence" response)) used)

-- The end of finish.
unfoldable pub end_message : Option Fields → Translator → Moved
end_message response t =
    let read = read_end response t in
    (
      record read { finished = true },
      message_delta read.stop_reason read.stop_sequence read.output_tokens ∷ message_stop ∷ [],
    )

-- finish
unfoldable pub finish : Option Fields → Translator → Moved
finish response t =
    if t.finished
    then stay t
    else and_then
        (and_then (if t.text_key == "" then stay t else flush_text t.text_key t)
          (λ u. close_keys (sort_keys u.blocks) u))
        (end_message response)

-- Finish
unfoldable pub finish_stream : Fresh → Translator → Moved
finish_stream fresh t =
    if t.finished then stay t else and_then (ensure_start fresh none t) (finish none)
