-- ===== src/ToolReplay/Reads.antt =====
-- What is stored is found again, and only under its own tenant, model and key.
use grokcli2api_go.Prelude.{
  ℕ, ◌+◌, ◌≤◌, String, ◌≡◌, ◌≢◌, refl, Bool, false, Option, some, List, arith, ◌==◌, eq_iff, is_nil,
  le→not_ltb,
}
use grokcli2api_go.Prelude.Map.{lookup-insert_self}
use grokcli2api_go.Pool.AffinityKeys.{NulFree, before_nul}
use grokcli2api_go.ToolReplay.{
  Item, Cache, get_record, tool_replay_key, normalize_tenant, put_sized, put_for_tenant,
  normalize_replay_items,
}

not_empty : (t : String) → t ≢ "" → (t == "") ≡ false
not_empty t n = ground (arith, n, eq_iff t "")

-- An entry with a model, a key and items, of which some are kept and whose encoding fits the byte
-- budget, is found by a read of the same tenant, model and key until its time has passed, with its
-- items normalized and its store flags.
pub get_record-put_for_tenant :
    (encoded_length : List Item → Option ℕ) (now later : ℕ) (tenant model key : String)
    (items : List Item) (is_stored store_known : Bool) (size : ℕ) (c : Cache)
    → model ≢ ""
    → key ≢ ""
    → is_nil items ≡ false
    → is_nil (normalize_replay_items items) ≡ false
    → encoded_length (normalize_replay_items items) ≡ some size
    → size ≤ c.max_bytes
    → later ≤ now + c.ttl
    → (get_record later tenant model key
        (put_for_tenant encoded_length now tenant model key items is_stored store_known c)).1
      ≡ some (record {
        items = normalize_replay_items items;
        is_stored = is_stored;
        store_known = store_known;
      })
unfolding get_record put_for_tenant put_sized
get_record-put_for_tenant encoded_length now later tenant model key items is_stored store_known size
      c m k n p e l t =
    rw (not_empty model m, not_empty key k, n, p, e, le→not_ltb c.max_bytes size l)
      (rw
        (
          lookup-insert_self (tool_replay_key tenant model key) _ _,
          le→not_ltb (now + c.ttl) later t,
        )
        refl)

-- Two reads or writes that meet at one key of the cache are of one tenant, one model and one key, when
-- no tenant and no model holds a NUL.
pub tool_replay_key_injective :
    (tenant other model model' key key' : String)
    → NulFree (normalize_tenant tenant)
    → NulFree (normalize_tenant other)
    → NulFree model
    → NulFree model'
    → tool_replay_key tenant model key ≡ tool_replay_key other model' key'
    → (normalize_tenant tenant ≡ normalize_tenant other) × (model ≡ model') × (key ≡ key')
unfolding tool_replay_key
tool_replay_key_injective tenant other model model' key key' ft fo fm fn h =
    let split = before_nul (normalize_tenant tenant) (normalize_tenant other) _ _ ft fo h in
    let rest = before_nul model model' key key' fm fn split.1 in (split.0, rest.0, rest.1)
