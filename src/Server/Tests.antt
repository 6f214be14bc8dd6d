-- ===== src/Server/Tests.antt =====
-- Runs of the stream adapter.
use grokcli2api_go.Prelude.{String, ◌≡◌, refl, true, false, some, List, [], ◌∷◌, ◌++◌, with_option}
use grokcli2api_go.Prelude.Int.{ℤ}
use grokcli2api_go.Prelude.Map.{lookup}
use grokcli2api_go.Prelude.Json.{
  string, object, Fields, no_fields, one_field, get_field, find_field,
}
use grokcli2api_go.Anthropic.Stops.{new_stop_filter, push, flush, begins}
use grokcli2api_go.Anthropic.Values.{anthropic_id, first_number, event_key}
use grokcli2api_go.Anthropic.Stream.{
  Fresh, stay, and_then, start_event, open_block, delta, send_delta, adjust, close_block,
  flush_text, close_keys, end_message, finish, new_translator,
}
use grokcli2api_go.Anthropic.Stream.Kinds.{kind_of, response_begun}
use grokcli2api_go.Anthropic.Stream.Cases.{add_text, end_part}
use grokcli2api_go.Anthropic.Stream.Handle.{Upstream, name_of, handle_kind, handle}
use grokcli2api_go.Anthropic.Client.{new_client, run, view}
use grokcli2api_go.Anthropic.Client.Accepted.{event_kind}
use grokcli2api_go.Server.MessagesStream.{
  Adapter, Sent, new_adapter, after_translation, handle_payload, adapter_handle, adapter_finish,
  adapter_run,
}
use grokcli2api_go.Server.MessagesStream.Whole.{messages_stream_settles}
use grokcli2api_go.Server.MessagesStream.Sound.{Settled}
use grokcli2api_go.Server.MessagesStream.Total.{adapter_run_total, has_end, succeeds}

abbrev digits : ℤ → String
digits n = "0"

abbrev fresh : Fresh
fresh = record { message = "m1"; item = "i1" }

abbrev event : String → Fields → Fresh × Upstream
event name payload = (fresh, record { name = name; is_blank = false; decoded = some payload })

abbrev created : Upstream
created = record {
  name = "response.created";
  is_blank = false;
  decoded =
      some (one_field "response" (object (one_field "id" (string "resp_1") no_fields)) no_fields);
}

abbrev rest : List (Fresh × Upstream)
rest =
    event "response.output_text.delta" (one_field "delta" (string "Hi") no_fields)
    ∷ event "response.output_text.done" no_fields
    ∷ event "response.completed" no_fields
    ∷ []

abbrev adapter : Adapter
unfolding new_adapter new_translator new_stop_filter
adapter = new_adapter "a1" "grok-4" true []

-- What the stream gives; the value in the other case does not matter.
abbrev given : Sent
given = with_option (adapter_run digits ((fresh, created) ∷ rest) adapter) (adapter, []) (λ m. m)

given_run :
    adapter_run digits ((fresh, created) ∷ rest) (new_adapter "a1" "grok-4" true []) ≡ some given
unfolding adapter_run adapter_handle handle_payload after_translation handle handle_kind kind_of
    name_of new_adapter new_translator start_event get_field find_field anthropic_id begins and_then
    stay open_block lookup event_key add_text push send_delta delta end_part flush_text flush
    close_block adjust finish close_keys end_message first_number
given_run = refl

created_begins : event_kind created ≡ response_begun
unfolding kind_of name_of
created_begins = refl

settles_example :
    (run new_client (given.1 ++ (adapter_finish given.0).1)
      ≡ some (view (adapter_finish given.0).0.translator))
    × Settled (adapter_finish given.0).0
settles_example =
    messages_stream_settles digits "a1" "grok-4" true [] fresh created rest given created_begins
      given_run

total_example :
    (m : Sent) × (adapter_run digits rest (new_adapter "a1" "grok-4" true []) ≡ some m)
    × (m.0.terminal ≡ has_end rest)
    × (m.0.success ≡ succeeds false rest)
unfolding new_adapter name_of get_field find_field
total_example =
    adapter_run_total digits rest (new_adapter "a1" "grok-4" true []) (refl, (refl, (refl, tt)))
      refl
