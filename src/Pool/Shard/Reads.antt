-- ===== src/Pool/Shard/Reads.antt =====
-- What the affinity cache answers: the account that was set, until it expires, and never another
-- key's.
use grokcli2api_go.Prelude.{
  ℕ, ◌+◌, ◌≤◌, String, ◌≡◌, ◌≢◌, ◌⊎◌, inl, inr, Option, none, some, arith, eq_iff, Option-cases,
}
use grokcli2api_go.Prelude.Map.{
  Map, Distinct, lookup, keep, lookup-keep, lookup-insert, lookup-remove, lookup-insert_self,
}
use grokcli2api_go.Pool.{AffinityEntry, AffinityCache, Digest}
use grokcli2api_go.Pool.Shard.{
  is_live, sweep, oldest_from, make_room, set, get, shard_of, live_entry, with_shard,
}

-- The entry that a Get finds.
abbrev pub seen : Digest → AffinityCache → ℕ → String → Option AffinityEntry
seen d c now key = live_entry (lookup (d.hex key) (c.shards (shard_of d key))) now

abbrev account_of : Option AffinityEntry → Option String
account_of none = none
account_of (some e) = some e.account_id

get_answer :
    (d : Digest) (c : AffinityCache) (now : ℕ) (key : String)
    → (get d c now key).1 ≡ account_of (seen d c now key)
unfolding get
get_answer d c now key = ground arith

-- After Set, Get answers with the account until the entry's time has passed.
pub get-set :
    (d : Digest) (c : AffinityCache) (t u : ℕ) (key account_id : String)
    → u ≤ t + c.ttl
    → (get d (set d c t key account_id) u key).1 ≡ some account_id
unfolding set get with_shard
get-set d c t u key account_id h = ground (
  arith,
  lookup-insert_self (d.hex key) (record { account_id = account_id; expires_at = t + c.ttl })
      (make_room c.limit t (c.shards (shard_of d key))),
)

-- A Get that hits moves the entry's time: the next Get hits within the time to live.
pub get-get :
    (d : Digest) (c : AffinityCache) (t u : ℕ) (key account_id : String)
    → (get d c t key).1 ≡ some account_id
    → u ≤ t + c.ttl
    → (get d (get d c t key).0 u key).1 ≡ some account_id
unfolding get with_shard
get-get d c t u key account_id hit h =
    elim (Option-cases (live_entry (lookup (d.hex key) (c.shards (shard_of d key))) t)) [
      | inl e ↦ absurd (ground (arith, e, hit))
      | inr (e, p) ↦ ground (
        arith,
        p,
        lookup-insert_self (d.hex key) (record e { expires_at = t + c.ttl })
            (c.shards (shard_of d key)),
      )
    ]

make_room-lookup :
    (limit now : ℕ) (k : String) (m : Map AffinityEntry)
    → Distinct m
    → (lookup k (make_room limit now m) ≡ lookup k m) ⊎ (lookup k (make_room limit now m) ≡ none)
unfolding make_room sweep
make_room-lookup limit now k m h = ground (
  arith,
  lookup-keep (λ j e. is_live now e) k m h,
  lookup-remove (oldest_from now ("", 0) m).0 k (keep (λ j e. is_live now e) m),
)

module _ (d : Digest) (c : AffinityCache) (t u : ℕ) (key other account_id : String) where
  lookup-set_other :
      (i : ℕ)
      → Distinct (c.shards i)
      → d.hex key ≢ d.hex other
      → (lookup (d.hex other) ((set d c t key account_id).shards i)
          ≡ lookup (d.hex other) (c.shards i))
        ⊎ (lookup (d.hex other) ((set d c t key account_id).shards i) ≡ none)
  unfolding set with_shard
  lookup-set_other i h n = ground (
    arith,
    make_room-lookup c.limit t (d.hex other) (c.shards i) h,
    lookup-insert (d.hex key) (d.hex other)
        (record { account_id = account_id; expires_at = t + c.ttl })
        (make_room c.limit t (c.shards i)),
    eq_iff (d.hex key) (d.hex other),
  )

  -- Setting one key never makes another key answer with another account: when the shard of the
  -- other key has no key twice, a Get of a key with another digest answers as it would have, or
  -- misses, since its entry made room.
  pub get-set_other :
      Distinct (c.shards (shard_of d other))
      → d.hex key ≢ d.hex other
      → ((get d (set d c t key account_id) u other).1 ≡ (get d c u other).1)
        ⊎ ((get d (set d c t key account_id) u other).1 ≡ none)
  get-set_other h n = ground (
    arith,
    get_answer d (set d c t key account_id) u other,
    get_answer d c u other,
    lookup-set_other (shard_of d other) h n,
  )
