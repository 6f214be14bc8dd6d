-- ===== src/Anthropic/Tests.antt =====
-- Runs of the stop filter and of the stream translator.
use grokcli2api_go.Prelude.{
  String, ◌≡◌, refl, true, false, not, ◌||◌, inr, none, some, List, [], ◌∷◌, with_option,
}
use grokcli2api_go.Prelude.Int.{ℤ}
use grokcli2api_go.Prelude.Map.{lookup}
use grokcli2api_go.Prelude.Json.{string, object, no_fields, one_field, get_field, find_field}
use grokcli2api_go.Anthropic.Stops.{Text, new_stop_filter, push, flush, begins, earliest, hold_all}
use grokcli2api_go.Anthropic.Stops.Exact.{Outcome, concat, send, send-exact}
use grokcli2api_go.Anthropic.Values.{to_text, anthropic_id, raw_item_id, event_key}
use grokcli2api_go.Anthropic.Stream.{
  Moved, Fresh, stay, and_then, open_block, close_block, adjust, new_translator,
}
use grokcli2api_go.Anthropic.Stream.Kinds.{kind_of}
use grokcli2api_go.Anthropic.Stream.Cases.{end_item}
use grokcli2api_go.Anthropic.Stream.Handle.{Upstream, name_of, handle_kind, handle}
use grokcli2api_go.Anthropic.Client.{new_client, step, run, view}
use grokcli2api_go.Anthropic.Client.Start.{Ready, After}
use grokcli2api_go.Anthropic.Client.Accepted.{event_kind, reports_search, handle_refines}

abbrev stops : List Text
stops = to_text "END" ∷ to_text "STOP" ∷ []

abbrev pieces : List Text
pieces = to_text "One E" ∷ to_text "ND two" ∷ []

send_example :
    Outcome stops
      (concat pieces)
      (send (new_stop_filter stops) pieces).1
      (send (new_stop_filter stops) pieces).0.matched
send_example = send-exact stops pieces refl (refl, (refl, tt))

-- Nothing of the sequence that comes in two pieces is emitted.
cut_run : (send (new_stop_filter stops) pieces).1 ≡ to_text "One "
unfolding send push earliest hold_all new_stop_filter flush
cut_run = refl

abbrev digits : ℤ → String
digits n = "0"

abbrev fresh : Fresh
fresh = record { message = "m1"; item = "i1" }

abbrev created : Upstream
created = record {
  name = "response.created";
  is_blank = false;
  decoded =
      some (one_field "response" (object (one_field "id" (string "resp_1") no_fields)) no_fields);
}

abbrev begun : Moved
begun =
    with_option (handle digits fresh created (new_translator "grok-4" true []))
      (new_translator "grok-4" true [], []) (λ m. m)

new-Ready : Ready (new_translator "grok-4" true [])
unfolding new_translator
new-Ready = (refl, tt, inr refl)

created_handled : handle digits fresh created (new_translator "grok-4" true []) ≡ some begun
unfolding handle new_translator
created_handled = refl

created-unsearched :
    ((new_translator "grok-4" true []).started || not (reports_search created)) ≡ true
unfolding new_translator kind_of name_of
created-unsearched = refl

refines_example :
    (run (view (new_translator "grok-4" true [])) begun.1 ≡ some (view begun.0))
    × After (event_kind created) begun.0
refines_example =
    handle_refines digits fresh created (new_translator "grok-4" true []) begun new-Ready
      created-unsearched created_handled

-- A web search whose end is the first event: its result block comes before the message's start.
abbrev search_end : Upstream
search_end = record {
  name = "response.output_item.done";
  is_blank = false;
  decoded =
      some (
        one_field "item" (object (one_field "type" (string "web_search_call") no_fields))
          no_fields);
}

abbrev early : Moved
early =
    with_option (handle digits fresh search_end (new_translator "grok-4" true []))
      (new_translator "grok-4" true [], []) (λ m. m)

early_search : run new_client early.1 ≡ none
unfolding run step handle handle_kind kind_of name_of new_translator new_stop_filter get_field
    find_field and_then stay end_item open_block close_block adjust lookup event_key anthropic_id
    raw_item_id begins
early_search = refl
