-- ===== src/ToolReplay/Budget.antt =====
-- The bounds of the cache: its count of bytes is that of its entries, and both budgets hold.
use grokcli2api_go.Prelude.{
  ℕ, ◌+◌, ◌-◌, ◌≤◌, String, ◌≡◌, refl, Bool, ◌||◌, Option, none, some, List, arith, ◌==◌,
  if◌then◌else◌, ltb, leb, length, if_both, Bool-cases, inl, inr, is_nil,
}
use grokcli2api_go.Prelude.Map.{
  Map, lookup, insert, remove, Distinct, Distinct-insert, Distinct-remove, length-insert-le,
  length-remove-le, length-insert_old,
}
use grokcli2api_go.ToolReplay.{
  Item, Entry, Cache, Found, read_entry, get_record, tool_replay_key, evict_expired, make_room,
  drop_old, put_sized, put_encoded, put_for_tenant, normalize_replay_items,
}
use grokcli2api_go.ToolReplay.Room.{
  total, IsReady, IsReady-Shrinks, evict_expired-Shrinks, make_room-Shrinks, make_room-fits,
  total-remove-none, total-remove, drop_old-Shrinks,
}

-- The cache within its budgets of entries and of bytes.
pub record IsWellFormed (c : Cache) : Type 0 where
  pub keys_differ : Distinct c.entries
  pub counted : c.bytes ≡ total c.entries
  pub in_entries : length c.entries ≤ c.max_entries
  pub in_bytes : c.bytes ≤ c.max_bytes
  pub has_room : 1 ≤ c.max_entries

module _ (now : ℕ) (key : String) (items : List Item) (is_stored store_known : Bool) (size : ℕ)
    (c : Cache) where
  abbrev entry : Entry
  entry = record {
    items = items;
    is_stored = is_stored;
    store_known = store_known;
    bytes = size;
    expires_at = now + c.ttl;
  }

  abbrev after_drop : ℕ × Map Entry
  after_drop = drop_old key c.bytes c.entries (lookup key c.entries)

  abbrev after_sweep : ℕ × Map Entry
  after_sweep =
      if leb c.max_entries (length after_drop.1)
      then evict_expired now after_drop.0 after_drop.1
      else (after_drop.0, after_drop.1)

  abbrev after_room : ℕ × Map Entry
  after_room = make_room c.max_entries c.max_bytes size after_sweep.0 after_sweep.1

  put_sized-IsWellFormed :
      IsWellFormed c
      → size ≤ c.max_bytes
      → IsWellFormed (put_sized now key items is_stored store_known size c)
  unfolding put_sized insert
  put_sized-IsWellFormed w l =
      let dropped =
        drop_old-Shrinks key c.bytes c.entries (lookup key c.entries) w.keys_differ w.counted
          refl in
      let ready : IsReady key after_drop = record {
        counted = dropped.0;
        absent = dropped.1;
        distinct = dropped.2;
      } in
      let swept : IsReady key after_sweep =
        if_both (IsReady key) (leb c.max_entries (length after_drop.1))
          (evict_expired now after_drop.0 after_drop.1) (after_drop.0, after_drop.1)
          (IsReady-Shrinks key after_drop.0 after_drop.1
            (evict_expired now after_drop.0 after_drop.1) ready
            (evict_expired-Shrinks now after_drop.0 after_drop.1 (omega (arith, dropped.0))))
          ready in
      let room = IsReady-Shrinks key after_sweep.0 after_sweep.1 after_room swept (
        make_room-Shrinks c.max_entries c.max_bytes size after_sweep.0 after_sweep.1
          (omega (arith, swept.counted))) in
      let fits =
        make_room-fits c.max_entries c.max_bytes size after_sweep.0 after_sweep.1 swept.counted
          w.has_room l in
      record {
        keys_differ = Distinct-insert key entry after_room.1 room.distinct;
        counted = omega (arith, room.counted, total-remove-none key after_room.1 room.absent);
        in_entries = omega (arith, fits.0, length-insert-le key entry after_room.1);
        in_bytes = fits.1;
        has_room = w.has_room;
      }

put_encoded-IsWellFormed :
    (now : ℕ) (key : String) (items : List Item) (is_stored store_known : Bool) (o : Option ℕ)
    (c : Cache)
    → IsWellFormed c
    → IsWellFormed (put_encoded now key items is_stored store_known o c)
put_encoded-IsWellFormed now key items is_stored store_known none c w = w
put_encoded-IsWellFormed now key items is_stored store_known (some size) c w =
    elim (Bool-cases (ltb c.max_bytes size)) [
      | inl big ↦ rw big w
      | inr small ↦ rw small (
          put_sized-IsWellFormed now key items is_stored store_known size c w
            (ground (arith, small)))
    ]

-- Storing keeps a well-formed cache within its budgets: the count of bytes is that of its entries
-- and at most the byte budget, there are at most as many entries as allowed, and no key is there
-- twice.
pub put_for_tenant-IsWellFormed :
    (encoded_length : List Item → Option ℕ) (now : ℕ) (tenant model key : String)
    (items : List Item) (is_stored store_known : Bool) (c : Cache)
    → IsWellFormed c
    → IsWellFormed
        (put_for_tenant encoded_length now tenant model key items is_stored store_known c)
unfolding put_for_tenant
put_for_tenant-IsWellFormed encoded_length now tenant model key items is_stored store_known c w =
    let normalized = normalize_replay_items items in
    if_both IsWellFormed ((model == "" || key == "") || (is_nil items || is_nil normalized)) c
      (put_encoded now (tool_replay_key tenant model key) normalized is_stored store_known
        (encoded_length normalized) c)
      w
      (put_encoded-IsWellFormed now (tool_replay_key tenant model key) normalized is_stored
        store_known (encoded_length normalized) c w)

read_entry-IsWellFormed :
    (now : ℕ) (key : String) (c : Cache) (o : Option Entry)
    → IsWellFormed c
    → lookup key c.entries ≡ o
    → IsWellFormed (read_entry now key c o).0
unfolding insert
read_entry-IsWellFormed now key c none w h = w
read_entry-IsWellFormed now key c (some e) w h =
    let renewed : Entry = record e { expires_at = now + c.ttl } in
    let gone = total-remove key c.entries e w.keys_differ h in
    if_both (λ (r : Cache × Option Found). IsWellFormed r.0) (ltb e.expires_at now)
      (record c { bytes = c.bytes - e.bytes; entries = remove key c.entries }, none)
      (
        record c { entries = insert key renewed c.entries },
        some (record { items = e.items; is_stored = e.is_stored; store_known = e.store_known }),
      )
      (record {
        keys_differ = Distinct-remove key c.entries w.keys_differ;
        counted = omega (arith, gone, w.counted);
        in_entries = omega (arith, w.in_entries, length-remove-le key c.entries);
        in_bytes = omega (arith, w.in_bytes);
        has_room = w.has_room;
      })
      (record {
        keys_differ = Distinct-insert key renewed c.entries w.keys_differ;
        counted = omega (arith, gone, w.counted);
        in_entries = omega (arith, w.in_entries, length-insert_old key renewed e c.entries h);
        in_bytes = w.in_bytes;
        has_room = w.has_room;
      })

-- Reading, which drops an expired entry and renews a live one, keeps the cache within its budgets.
pub get_record-IsWellFormed :
    (now : ℕ) (tenant model key : String) (c : Cache)
    → IsWellFormed c
    → IsWellFormed (get_record now tenant model key c).0
unfolding get_record
get_record-IsWellFormed now tenant model key c w =
    let cache_key = tool_replay_key tenant model key in
    if_both (λ (r : Cache × Option Found). IsWellFormed r.0) (model == "" || key == "") (c, none)
      (read_entry now cache_key c (lookup cache_key c.entries)) w
      (read_entry-IsWellFormed now cache_key c (lookup cache_key c.entries) w refl)
