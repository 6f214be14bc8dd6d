-- ===== src/ToolReplay.antt =====
-- internal/openai/tool_replay.go: the cache of completed tool calls, and the shape of what it keeps.
-- JSON is modelled as far as this code looks into it.
pub mod Items
pub mod Room
pub mod Budget
pub mod Reads
mod Tests
use grokcli2api_go.Prelude.{
  ℕ, ◌+◌, ◌-◌, ◌≤◌, String, Bool, true, false, not, ◌&&◌, ◌||◌, Option, none, some, List, [], ◌∷◌,
  ◌==◌, if◌then◌else◌, ltb, leb, eqb, length, is_nil,
}
use grokcli2api_go.Prelude.Map.{Map, lookup, insert, remove}
use grokcli2api_go.Prelude.Text.{trim_space}
use grokcli2api_go.Pool.AffinityKeys.{◌then_text◌, nul}

-- A JSON value: null, a text, or any other, which this code passes on unread.
pub data Value : Type 0 where
  null : Value
  text : String → Value
  opaque : ℕ → Value

abbrev pub Item : Type 0
Item = Map Value

abbrev pub non_empty_text : Option Value → String
non_empty_text (some (text t)) = t
non_empty_text _ = ""

-- strings.TrimSpace(String(item, key, ""))
unfoldable pub trimmed_field : String → Item → String
trimmed_field key item = trim_space (non_empty_text (lookup key item))

unfoldable pub with_field : String → String → Item → Item
with_field key value item = if value == "" then item else insert key (text value) item

-- The case "function_call" of normalizeReplayItems.
abbrev pub normalize_function_call : Item → Option Value → Option Item
normalize_function_call item (some (text arguments)) =
    let call_id = trimmed_field "call_id" item in
    let name = trimmed_field "name" item in
    if call_id == "" || name == ""
    then none
    else some (
        with_field "namespace" (trimmed_field "namespace" item) (
          with_field "id" (trimmed_field "id" item) (
            ("type", text "function_call")
            ∷ ("call_id", text call_id)
            ∷ ("name", text name)
            ∷ ("arguments", text arguments)
            ∷ [])))
normalize_function_call item _ = none

abbrev pub normalize_input : Item → Value → Option Item
normalize_input item null = none
normalize_input item input =
    let call_id = trimmed_field "call_id" item in
    let name = trimmed_field "name" item in
    if call_id == "" || name == ""
    then none
    else some (
        with_field "namespace" (trimmed_field "namespace" item) (
          with_field "status" (trimmed_field "status" item) (
            with_field "id" (trimmed_field "id" item) (
              ("type", text "custom_tool_call")
              ∷ ("status", text "completed")
              ∷ ("call_id", text call_id)
              ∷ ("name", text name)
              ∷ ("input", input)
              ∷ []))))

-- The case "custom_tool_call".
abbrev pub normalize_custom_tool_call : Item → Option Value → Option Item
normalize_custom_tool_call item none = none
normalize_custom_tool_call item (some input) = normalize_input item input

unfoldable pub normalize_item : Item → Option Item
unfolding trimmed_field with_field
normalize_item item =
    let kind = non_empty_text (lookup "type" item) in
    if kind == "function_call"
    then normalize_function_call item (lookup "arguments" item)
    else if kind == "custom_tool_call"
    then normalize_custom_tool_call item (lookup "input" item)
    else none

unfoldable pub normalize_replay_items : List Item → List Item
unfolding normalize_item
normalize_replay_items [] = []
normalize_replay_items (item ∷ items) = elim (normalize_item item) [
  | none ↦ normalize_replay_items items
  | some normalized ↦ normalized ∷ normalize_replay_items items
]

pub record Entry : Type 0 where
  pub items : List Item
  pub is_stored : Bool
  pub store_known : Bool
  pub bytes : ℕ
  pub expires_at : ℕ

pub record Cache : Type 0 where
  pub ttl : ℕ
  pub max_entries : ℕ
  pub max_bytes : ℕ
  pub bytes : ℕ
  pub entries : Map Entry

-- NewToolReplayCacheWithByteBudget
unfoldable pub new_cache : ℕ → ℕ → ℕ → Cache
new_cache ttl max_entries max_bytes = record {
  ttl = if eqb ttl 0 then 3600000000000 else ttl;
  max_entries = if ltb max_entries 1 then 10240 else max_entries;
  max_bytes = if ltb max_bytes 1 then 33554432 else max_bytes;
  bytes = 0;
  entries = [];
}

unfoldable pub normalize_tenant : String → String
normalize_tenant tenant = if trim_space tenant == "" then "public" else trim_space tenant

unfoldable pub tool_replay_key : String → String → String → String
unfolding ◌then_text◌ normalize_tenant
tool_replay_key tenant model key =
    normalize_tenant tenant then_text nul then_text model then_text nul then_text key

pub record Found : Type 0 where
  pub items : List Item
  pub is_stored : Bool
  pub store_known : Bool

abbrev pub read_entry : ℕ → String → Cache → Option Entry → Cache × Option Found
read_entry now key c none = (c, none)
read_entry now key c (some e) =
    if ltb e.expires_at now
    then (record c { bytes = c.bytes - e.bytes; entries = remove key c.entries }, none)
    else (
      record c { entries = insert key (record e { expires_at = now + c.ttl }) c.entries },
      some (record { items = e.items; is_stored = e.is_stored; store_known = e.store_known }),
    )

-- getRecordForTenant
unfoldable pub get_record : ℕ → String → String → String → Cache → Cache × Option Found
unfolding tool_replay_key
get_record now tenant model key c =
    let cache_key = tool_replay_key tenant model key in
    let found = read_entry now cache_key c (lookup cache_key c.entries) in
    if model == "" || key == "" then (c, none) else found

-- What a deletion loop leaves: the count of bytes and the entries.
unfoldable pub evict_expired : ℕ → ℕ → Map Entry → ℕ × Map Entry
evict_expired now bytes [] = (bytes, [])
evict_expired now bytes ((k, e) ∷ m) =
    let without = evict_expired now (bytes - e.bytes) m in
    let rest = evict_expired now bytes m in
    if ltb e.expires_at now then without else (rest.0, (k, e) ∷ rest.1)

-- The loop that deletes entries, in the order of the map, until the new one fits.
unfoldable pub make_room : ℕ → ℕ → ℕ → ℕ → Map Entry → ℕ × Map Entry
make_room max_entries max_bytes size bytes [] = (bytes, [])
make_room max_entries max_bytes size bytes ((k, e) ∷ m) =
    let rest = make_room max_entries max_bytes size (bytes - e.bytes) m in
    if leb max_entries (length m + 1) || ltb max_bytes (bytes + size)
    then rest
    else (bytes, (k, e) ∷ m)

-- The entry under the key goes first.
abbrev pub drop_old : String → ℕ → Map Entry → Option Entry → ℕ × Map Entry
drop_old key bytes m none = (bytes, m)
drop_old key bytes m (some e) = (bytes - e.bytes, remove key m)

-- putForTenant after the entry has been encoded; `size` is the length of its encoding.
unfoldable pub put_sized : ℕ → String → List Item → Bool → Bool → ℕ → Cache → Cache
unfolding evict_expired make_room
put_sized now key normalized is_stored store_known size c =
    let (bytes, m) = drop_old key c.bytes c.entries (lookup key c.entries) in
    let (swept_bytes, swept) =
      if leb c.max_entries (length m) then evict_expired now bytes m else (bytes, m) in
    let (left_bytes, left) = make_room c.max_entries c.max_bytes size swept_bytes swept in
    record c {
      bytes = left_bytes + size;
      entries =
          insert key
            (record {
              items = normalized;
              is_stored = is_stored;
              store_known = store_known;
              bytes = size;
              expires_at = now + c.ttl;
            })
            left;
    }

abbrev pub put_encoded : ℕ → String → List Item → Bool → Bool → Option ℕ → Cache → Cache
put_encoded now key normalized is_stored store_known none c = c
put_encoded now key normalized is_stored store_known (some size) c =
    if ltb c.max_bytes size then c else put_sized now key normalized is_stored store_known size c

-- putForTenant. `encoded_length` gives the length of what json.Marshal returns, if it succeeds.
unfoldable pub put_for_tenant :
    (List Item → Option ℕ) → ℕ → String → String → String → List Item → Bool → Bool → Cache → Cache
unfolding normalize_replay_items tool_replay_key put_sized
put_for_tenant encoded_length now tenant model key items is_stored store_known c =
    let normalized = normalize_replay_items items in
    if (model == "" || key == "") || (is_nil items || is_nil normalized)
    then c
    else put_encoded now (tool_replay_key tenant model key) normalized is_stored store_known
        (encoded_length normalized) c
