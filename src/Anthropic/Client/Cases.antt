-- ===== src/Anthropic/Client/Cases.antt =====
-- The cases of Handle on a message that has started: a client accepts what each sends.
use grokcli2api_go.Prelude.{String, refl, if_both, option_both, is_nil}
use grokcli2api_go.Prelude.Map.{lookup}
use grokcli2api_go.Prelude.Json.{Fields}
use grokcli2api_go.Anthropic.Stops.{Text, push}
use grokcli2api_go.Anthropic.Values.{to_text, of_text}
use grokcli2api_go.Anthropic.Stream.{Block, Translator, Fresh, stay}
use grokcli2api_go.Anthropic.Stream.Kinds.{
  ItemKind, reasoning_item, call_item, web_search_item, server_tool_item, other_item,
}
use grokcli2api_go.Anthropic.Stream.Cases.{
  add_item, add_text, add_arguments, late_arguments, last_deltas, end_part, end_arguments, end_item,
  note_match, is_text,
}
use grokcli2api_go.Anthropic.Client.Steps.{
  Live, Keeps, and_then-Keeps, stay-Keeps, write_block-Keeps, open_block-Keeps, send_delta-Keeps,
  close_block-Keeps, flush_text-Keeps,
}

pub add_item-Keeps :
    (fresh : Fresh) (kind : ItemKind) (key : String) (item : Fields) (t : Translator)
    → Live t
    → Keeps t (add_item fresh kind key item t)
unfolding add_item
add_item-Keeps fresh reasoning_item key item t l =
    if_both (Keeps t) t.thinking_enabled _ _ (open_block-Keeps key _ _ t l) (stay-Keeps t l)
add_item-Keeps fresh call_item key item t l =
    let called = record t { stop_reason = "tool_use" } in
    and_then-Keeps t _ _ (open_block-Keeps key _ _ called l)
      (λ u k. write_block-Keeps u key _ (λ b. refl) (λ b. refl) k)
add_item-Keeps fresh web_search_item key item t l = open_block-Keeps key _ _ t l
add_item-Keeps fresh server_tool_item key item t l = open_block-Keeps key _ _ t l
add_item-Keeps fresh other_item key item t l = stay-Keeps t l

note_match-Keeps : (matched : Text) (t : Translator) → Live t → Keeps t (note_match matched t)
note_match-Keeps matched t l =
    let stopped = record t { stop_reason = "stop_sequence"; stop_sequence = of_text matched } in
    if_both (Keeps t) (is_nil matched) (stay t) (stay stopped) (stay-Keeps t l)
      (stay-Keeps stopped l)

pub add_text-Keeps : (key value : String) (t : Translator) → Live t → Keeps t (add_text key value t)
unfolding add_text
add_text-Keeps key value t l =
    let pushed = push t.stop_filter (to_text value) in
    let after = record t { text_key = key; stop_filter = pushed.0 } in
    and_then-Keeps t _ _
      (if_both (Keeps t) (is_nil pushed.1) _ _ (stay-Keeps after l)
        (send_delta-Keeps key _ after l))
      (note_match-Keeps pushed.2)

pub add_arguments-Keeps :
    (fresh : Fresh) (key : String) (payload : Fields) (t : Translator)
    → Live t
    → Keeps t (add_arguments fresh key payload t)
unfolding add_arguments
add_arguments-Keeps fresh key payload t l =
    let called = record t { stop_reason = "tool_use" } in
    and_then-Keeps t _ _
      (and_then-Keeps t _ _
        (option_both (Keeps t) (lookup key t.blocks) _ _ (open_block-Keeps key _ _ called l)
          (λ b. stay-Keeps t l))
        (λ u k. write_block-Keeps u key _ (λ b. refl) (λ b. refl) k))
      (send_delta-Keeps key _)

pub end_part-Keeps : (key : String) (t : Translator) → Live t → Keeps t (end_part key t)
unfolding end_part
end_part-Keeps key t l =
    and_then-Keeps t _ _
      (option_both (Keeps t) (lookup key t.blocks) _ _ (stay-Keeps t l)
        (λ b. if_both (Keeps t) (is_text b.kind) _ _ (flush_text-Keeps key t l) (stay-Keeps t l)))
      (close_block-Keeps key)

late_arguments-Keeps :
    (key : String) (payload : Fields) (block : Block) (t : Translator)
    → Live t
    → Keeps t (late_arguments key payload block t)
late_arguments-Keeps key payload block t l = if_both (Keeps t) _ _ _ (stay-Keeps t l) (
    and_then-Keeps t _ _ (send_delta-Keeps key _ t l)
      (λ u k. write_block-Keeps u key _ (λ b. refl) (λ b. refl) k))

pub end_arguments-Keeps :
    (key : String) (payload : Fields) (t : Translator)
    → Live t
    → Keeps t (end_arguments key payload t)
unfolding end_arguments
end_arguments-Keeps key payload t l =
    and_then-Keeps t _ _
      (option_both (Keeps t) (lookup key t.blocks) _ _ (stay-Keeps t l)
        (λ b. late_arguments-Keeps key payload b t l))
      (close_block-Keeps key)

last_deltas-Keeps :
    (key : String) (item : Fields) (block : Block) (t : Translator)
    → Live t
    → Keeps t (last_deltas key item block t)
last_deltas-Keeps key item block t l =
    and_then-Keeps t _ _ (if_both (Keeps t) _ _ _ (send_delta-Keeps key _ t l) (stay-Keeps t l))
      (λ u k. if_both (Keeps u) _ _ _ (send_delta-Keeps key _ u k) (stay-Keeps u k))

pub end_item-Keeps :
    (fresh : Fresh) (key : String) (item : Fields) (t : Translator)
    → Live t
    → Keeps t (end_item fresh key item t)
unfolding end_item
end_item-Keeps fresh key item t l =
    let closed =
      and_then-Keeps t _ _
        (option_both (Keeps t) (lookup key t.blocks) _ _ (stay-Keeps t l)
          (λ b. last_deltas-Keeps key item b t l))
        (close_block-Keeps key) in
    if_both (Keeps t) _ _ _
      (and_then-Keeps t _ _ (and_then-Keeps t _ _ closed (open_block-Keeps _ _ _))
        (close_block-Keeps _))
      closed
