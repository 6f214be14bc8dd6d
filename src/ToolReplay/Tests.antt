-- ===== src/ToolReplay/Tests.antt =====
-- Runs of the tool replay cache.
use grokcli2api_go.Prelude.{ℕ, ◌≡◌, refl, true, Option, some, List, [], ◌∷◌, arith, All}
use grokcli2api_go.Prelude.Map.{lookup}
use grokcli2api_go.Prelude.Text.{texts_differ, trim_space}
use grokcli2api_go.ToolReplay.{
  text, Item, Cache, get_record, put_for_tenant, normalize_replay_items, normalize_item,
  trimmed_field, with_field, normalize_tenant,
}
use grokcli2api_go.ToolReplay.Budget.{IsWellFormed, put_for_tenant-IsWellFormed}
use grokcli2api_go.ToolReplay.Items.{IsToolCall, normalize_replay_items-IsToolCall}
use grokcli2api_go.ToolReplay.Reads.{get_record-put_for_tenant, tool_replay_key_injective}

abbrev call : Item
call =
    ("type", text "function_call")
    ∷ ("call_id", text "c1")
    ∷ ("name", text "search")
    ∷ ("arguments", text "{}")
    ∷ []

abbrev empty_cache : Cache
empty_cache = record { ttl = 50; max_entries = 2; max_bytes = 100; bytes = 0; entries = [] }

abbrev length_ten : List Item → Option ℕ
length_ten items = some 10

empty-IsWellFormed : IsWellFormed empty_cache
empty-IsWellFormed = record {
  keys_differ = tt;
  counted = refl;
  in_entries = ground arith;
  in_bytes = ground arith;
  has_room = ground arith;
}

put_example :
    IsWellFormed (put_for_tenant length_ten 5 "t" "grok-4" "k" (call ∷ []) true true empty_cache)
put_example =
    put_for_tenant-IsWellFormed length_ten 5 "t" "grok-4" "k" (call ∷ []) true true empty_cache
      empty-IsWellFormed

read_back_example :
    (get_record 30 "t" "grok-4" "k"
      (put_for_tenant length_ten 5 "t" "grok-4" "k" (call ∷ []) true true empty_cache)).1
    ≡ some (record {
      items = normalize_replay_items (call ∷ []);
      is_stored = true;
      store_known = true;
    })
unfolding normalize_replay_items normalize_item trimmed_field trim_space lookup with_field
read_back_example =
    get_record-put_for_tenant length_ten 5 30 "t" "grok-4" "k" (call ∷ []) true true 10 empty_cache
      (texts_differ "grok-4" "" refl) (texts_differ "k" "" refl) refl refl refl (ground arith)
      (ground arith)

shape_example : All IsToolCall (normalize_replay_items (call ∷ [] ∷ []))
shape_example = normalize_replay_items-IsToolCall (call ∷ [] ∷ [])

same_key_example :
    (normalize_tenant "t" ≡ normalize_tenant "t")
    × (normalize_tenant "m" ≡ normalize_tenant "m")
    × (normalize_tenant "k" ≡ normalize_tenant "k")
unfolding normalize_tenant trim_space
same_key_example =
    tool_replay_key_injective "t" "t" (normalize_tenant "m") (normalize_tenant "m")
      (normalize_tenant "k") (normalize_tenant "k") (ground arith) (ground arith) (ground arith)
      (ground arith) refl
