-- ===== src/Pool/Shard/Bound.antt =====
-- The affinity cache never outgrows its limit, and makes room by dropping the oldest live entry.
use grokcli2api_go.Prelude.{
  ℕ, ◌+◌, ◌≤◌, ◌<◌, String, ◌≡◌, ◌≢◌, ap, true, not, ◌&&◌, Option, none, some, [], ◌∷◌, arith, ◌==◌,
  eq_iff, eq_refl, if◌then◌else◌, ltb, leb, length, has, All, Bool-cases, Option-cases, inl, inr,
  ltb→lt,
}
use grokcli2api_go.Prelude.Map.{
  Map, Distinct, Distinct-insert, Distinct-remove, Distinct-keep, lookup, insert, remove, keep,
  keys, has-keys, keep-none, length-keep-le, length-insert-le, length-insert_old, length-remove_key,
  length-remove-le, lookup-insert, lookup-remove,
}
use grokcli2api_go.Pool.{AffinityEntry, AffinityCache, Digest}
use grokcli2api_go.Pool.Shard.{
  is_live, sweep, oldest_from, make_room, set, get, forget, shard_of, live_entry, with_shard,
}

-- The oldest entry is the one found so far, or one of those that the sweep leaves.
oldest_from-mem :
    (now : ℕ) (o : String × ℕ) (m : Map AffinityEntry)
    → has (oldest_from now o m).0 (o.0 ∷ keys (sweep now m)) ≡ true
unfolding oldest_from sweep has keep
oldest_from-mem now (k, t) [] = simp eq_refl
oldest_from-mem now (k, t) ((j, e) ∷ m) =
    ground (arith, oldest_from-mem now (k, t) m, oldest_from-mem now (j, e.expires_at) m)

-- When the sweep leaves something and no entry has been chosen, the oldest is one of what is left.
oldest_from-rest :
    (now : ℕ) (k : String) (m : Map AffinityEntry)
    → 0 < length (sweep now m)
    → has (oldest_from now (k, 0) m).0 (keys (sweep now m)) ≡ true
unfolding oldest_from sweep has keep
oldest_from-rest now k [] h = absurd (omega arith)
oldest_from-rest now k ((j, e) ∷ m) h =
    ground (arith, oldest_from-rest now k m, oldest_from-mem now (j, e.expires_at) m)

-- The oldest entry found is no younger than any live entry.
oldest_from-le :
    (now t : ℕ) (k : String) (m : Map AffinityEntry) (r : ℕ)
    → 0 < now
    → (oldest_from now (k, t) m).1 ≡ r
    → (0 < t → r ≤ t) × All (λ e. r ≤ e.1.expires_at) (sweep now m)
unfolding oldest_from sweep keep
oldest_from-le now t k [] r h e = (λ p. omega arith, tt)
oldest_from-le now t k ((j, e) ∷ m) r h same =
    ground (arith, oldest_from-le now t k m r h, oldest_from-le now e.expires_at j m r h)

sweep_nameless :
    (now : ℕ) (m : Map AffinityEntry) → lookup "" m ≡ none → lookup "" (sweep now m) ≡ none
unfolding sweep
sweep_nameless now m h = keep-none (λ k e. is_live now e) "" m h

length-sweep-le : (now : ℕ) (m : Map AffinityEntry) → length (sweep now m) ≤ length m
unfolding sweep
length-sweep-le now m = length-keep-le (λ k e. is_live now e) m

-- After room is made, a shard that is within its limit is below it.
make_room-lt :
    (limit now : ℕ) (m : Map AffinityEntry)
    → 0 < limit
    → lookup "" m ≡ none
    → length m ≤ limit
    → length (make_room limit now m) < limit
unfolding make_room
make_room-lt limit now m pos nameless h = elim (Bool-cases (ltb (length m) limit)) [
  | inl room ↦ rw room (omega (arith, ltb→lt (length m) limit room))
  | inr full ↦ rw full (after_sweep (oldest_from-rest now "" m))
]
  where
    after_sweep :
        (0 < length (sweep now m) → has (oldest_from now ("", 0) m).0 (keys (sweep now m)) ≡ true)
        → length (
            if leb limit (length (sweep now m)) && not ((oldest_from now ("", 0) m).0 == "")
            then remove (oldest_from now ("", 0) m).0 (sweep now m)
            else sweep now m)
          < limit
    after_sweep chosen = ground (
      arith,
      chosen,
      (λ (e : (oldest_from now ("", 0) m).0 ≡ "").
          ap (λ (t : String). has t (keys (sweep now m))) e),
      sweep_nameless now m nameless,
      has-keys "" (sweep now m),
      length-remove_key (oldest_from now ("", 0) m).0 (sweep now m),
      length-sweep-le now m,
      eq_iff (oldest_from now ("", 0) m).0 "",
    )

make_room_nameless :
    (limit now : ℕ) (m : Map AffinityEntry)
    → lookup "" m ≡ none
    → lookup "" (make_room limit now m) ≡ none
unfolding make_room
make_room_nameless limit now m h =
    ground
      (arith, sweep_nameless now m h, lookup-remove (oldest_from now ("", 0) m).0 "" (sweep now m))

make_room-Distinct :
    (limit now : ℕ) (m : Map AffinityEntry) → Distinct m → Distinct (make_room limit now m)
unfolding make_room sweep
make_room-Distinct limit now m h = ground (
  arith,
  Distinct-keep (λ k e. is_live now e) m h,
  Distinct-remove (oldest_from now ("", 0) m).0 (keep (λ k e. is_live now e) m),
)

-- Every shard is a map, has no entry without a name, and is within the limit.
pub record IsWellFormed (c : AffinityCache) : Type 0 where
  pub bounded : (i : ℕ) → length (c.shards i) ≤ c.limit
  pub nameless : (i : ℕ) → lookup "" (c.shards i) ≡ none
  pub distinct : (i : ℕ) → Distinct (c.shards i)

with_shard-IsWellFormed :
    (c : AffinityCache) (i : ℕ) (m : Map AffinityEntry)
    → IsWellFormed c
    → length m ≤ c.limit
    → lookup "" m ≡ none
    → Distinct m
    → IsWellFormed (with_shard c i m)
unfolding with_shard
with_shard-IsWellFormed c i m w b n d = record {
  bounded = λ j. ground (arith, w.bounded j);
  nameless = λ j. ground (arith, w.nameless j);
  distinct = λ j. ground (arith, w.distinct j);
}

module _ (d : Digest) (c : AffinityCache) (now : ℕ) (key : String) (named : d.hex key ≢ "") where
  -- Set keeps a well-formed cache well formed, when the limit is positive and the digest of the key
  -- is not empty: no shard passes its limit, whatever it held.
  pub set-IsWellFormed :
      (account_id : String)
      → 0 < c.limit
      → IsWellFormed c
      → IsWellFormed (set d c now key account_id)
  unfolding set
  set-IsWellFormed account_id pos w =
      let i = shard_of d key in
      let e : AffinityEntry = record { account_id = account_id; expires_at = now + c.ttl } in
      let rest = make_room c.limit now (c.shards i) in
      with_shard-IsWellFormed c i (insert (d.hex key) e rest) w
        (omega (
          arith,
          length-insert-le (d.hex key) e rest,
          make_room-lt c.limit now (c.shards i) pos (w.nameless i) (w.bounded i),
        ))
        (ground (
          arith,
          lookup-insert (d.hex key) "" e rest,
          eq_iff (d.hex key) "",
          make_room_nameless c.limit now (c.shards i) (w.nameless i),
        ))
        (Distinct-insert (d.hex key) e rest
          (make_room-Distinct c.limit now (c.shards i) (w.distinct i)))

  forget-IsWellFormed : IsWellFormed c → IsWellFormed (forget d c key)
  unfolding forget
  forget-IsWellFormed w =
      let i = shard_of d key in
      with_shard-IsWellFormed c i (remove (d.hex key) (c.shards i)) w
        (omega (arith, length-remove-le (d.hex key) (c.shards i), w.bounded i))
        (ground (arith, lookup-remove (d.hex key) "" (c.shards i), w.nameless i))
        (Distinct-remove (d.hex key) (c.shards i) (w.distinct i))

  live_found :
      (o : Option AffinityEntry) (e : AffinityEntry) → live_entry o now ≡ some e → o ≡ some e
  live_found o e h = ground arith

  slide-IsWellFormed :
      IsWellFormed c
      → (e f : AffinityEntry) → lookup (d.hex key) (c.shards (shard_of d key)) ≡ some f
      → IsWellFormed
          (with_shard c (shard_of d key) (insert (d.hex key) e (c.shards (shard_of d key))))
  slide-IsWellFormed w e f old =
      let i = shard_of d key in
      with_shard-IsWellFormed c i (insert (d.hex key) e (c.shards i)) w
        (omega (arith, length-insert_old (d.hex key) e f (c.shards i) old, w.bounded i))
        (ground
          (arith, lookup-insert (d.hex key) "" e (c.shards i), eq_iff (d.hex key) "", w.nameless i))
        (Distinct-insert (d.hex key) e (c.shards i) (w.distinct i))

  -- So do Get and Delete.
  pub get-IsWellFormed :
      IsWellFormed c → IsWellFormed (get d c now key).0 × IsWellFormed (forget d c key)
  unfolding get forget
  get-IsWellFormed w =
      let m = c.shards (shard_of d key) in
      (
        elim (Option-cases (live_entry (lookup (d.hex key) m) now)) [
          | inl missing ↦ rw (missing, get) (forget-IsWellFormed w)
          | inr (e, hit) ↦
              rw (hit, get)
                (slide-IsWellFormed w (record e { expires_at = now + c.ttl }) e
                  (live_found (lookup (d.hex key) m) e hit))
        ],
        forget-IsWellFormed w,
      )
