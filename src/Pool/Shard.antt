-- ===== src/Pool/Shard.antt =====
-- The affinity cache of pool.go: 64 shards of entries that expire, each bounded.
pub mod Bound
pub mod Reads
use grokcli2api_go.Prelude.{
  ℕ, ◌+◌, ◌-◌, ◌/◌, ◌%◌, String, Bool, true, false, not, ◌&&◌, ◌||◌, Option, none, some, List, [],
  ◌∷◌, ◌==◌, if◌then◌else◌, ltb, leb, eqb, length,
}
use grokcli2api_go.Prelude.Map.{Map, lookup, insert, remove, keep}
use grokcli2api_go.Pool.{AffinityEntry, AffinityCache, Digest}

abbrev pub shard_count : ℕ
shard_count = 64

-- newAffinityCache
unfoldable pub new_affinity_cache : ℕ → ℕ → AffinityCache
new_affinity_cache ttl max_entries = record {
  shards = λ i. [];
  ttl = ttl;
  limit = (max_entries + shard_count - 1) / shard_count;
}

-- affinityHash, and the shard that its first byte picks.
abbrev pub shard_of : Digest → String → ℕ
shard_of d key = d.byte key 0 % shard_count

unfoldable pub with_shard : AffinityCache → ℕ → Map AffinityEntry → AffinityCache
with_shard c i m = record c { shards = λ j. if eqb j i then m else c.shards j }

-- The entry that Get answers with, if it has one that has not expired.
abbrev pub live_entry : Option AffinityEntry → ℕ → Option AffinityEntry
live_entry none now = none
live_entry (some e) now = if ltb e.expires_at now then none else some e

unfoldable pub get : Digest → AffinityCache → ℕ → String → AffinityCache × Option String
unfolding with_shard
get d c now key =
    let i = shard_of d key in
    let m = c.shards i in
    elim (live_entry (lookup (d.hex key) m) now) [
      | none ↦ (with_shard c i (remove (d.hex key) m), none)
      | some e ↦ (
        with_shard c i (insert (d.hex key) (record e { expires_at = now + c.ttl }) m),
        some e.account_id,
      )
    ]

abbrev pub is_live : ℕ → AffinityEntry → Bool
is_live now e = not (ltb e.expires_at now)

-- The loop of Set over a full shard: what is deleted, and the oldest of the rest.
unfoldable pub sweep : ℕ → Map AffinityEntry → Map AffinityEntry
sweep now = keep (λ k e. is_live now e)

unfoldable pub oldest_from : ℕ → String × ℕ → Map AffinityEntry → String × ℕ
oldest_from now oldest [] = oldest
oldest_from now oldest ((k, e) ∷ m) =
    oldest_from now
      (if is_live now e
        then if eqb oldest.1 0 || ltb e.expires_at oldest.1 then (k, e.expires_at) else oldest
        else oldest)
      m

-- What Set leaves of the shard before it writes its entry.
unfoldable pub make_room : ℕ → ℕ → Map AffinityEntry → Map AffinityEntry
unfolding sweep oldest_from
make_room limit now m =
    if ltb (length m) limit
    then m
    else let rest = sweep now m in
      let oldest = oldest_from now ("", 0) m in
      if leb limit (length rest) && not (oldest.0 == "") then remove oldest.0 rest else rest

unfoldable pub set : Digest → AffinityCache → ℕ → String → String → AffinityCache
unfolding with_shard
set d c now key account_id =
    let i = shard_of d key in
    with_shard c i (
      insert (d.hex key) (record { account_id = account_id; expires_at = now + c.ttl })
        (make_room c.limit now (c.shards i)))

-- Delete
unfoldable pub forget : Digest → AffinityCache → String → AffinityCache
unfolding with_shard
forget d c key = with_shard c (shard_of d key) (remove (d.hex key) (c.shards (shard_of d key)))
