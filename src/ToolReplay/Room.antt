-- ===== src/ToolReplay/Room.antt =====
-- The loops that delete entries, and how the count of bytes follows them.
use grokcli2api_go.Prelude.{
  ℕ, ◌+◌, ◌-◌, ◌≤◌, String, ◌≡◌, refl, ap, ◌||◌, Option, none, some, [], ◌∷◌, arith, eq_iff, ltb,
  leb, length, if_both,
}
use grokcli2api_go.Prelude.Map.{Map, lookup, remove, Distinct, Distinct-remove, lookup-remove_self}
use grokcli2api_go.ToolReplay.{Entry, evict_expired, make_room, drop_old}

abbrev pub total : Map Entry → ℕ
total [] = 0
total ((k, e) ∷ m) = e.bytes + total m

-- What a loop that deletes entries keeps true: the count follows the entries, no entry is new, and no
-- key is there twice.
pub record Shrinks (bytes : ℕ) (m : Map Entry) (r : ℕ × Map Entry) : Type 0 where
  pub counted : r.0 + total m ≡ bytes + total r.1
  pub shorter : length r.1 ≤ length m
  pub distinct : Distinct m → Distinct r.1
  pub absent : (k : String) → lookup k m ≡ none → lookup k r.1 ≡ none

Shrinks-refl : (bytes : ℕ) (m : Map Entry) → Shrinks bytes m (bytes, m)
Shrinks-refl bytes m = record {
  counted = refl;
  shorter = omega arith;
  distinct = λ d. d;
  absent = λ k h. h;
}

Shrinks-drop :
    (bytes : ℕ) (k : String) (e : Entry) (m : Map Entry) (r : ℕ × Map Entry)
    → e.bytes ≤ bytes
    → Shrinks (bytes - e.bytes) m r
    → Shrinks bytes ((k, e) ∷ m) r
unfolding lookup
Shrinks-drop bytes k e m r l h = record {
  counted = omega (arith, h.counted, l);
  shorter = omega (arith, h.shorter);
  distinct = λ d. h.distinct d.1;
  absent = λ j g. h.absent j (ground (arith, g));
}

Shrinks-keep :
    (bytes : ℕ) (k : String) (e : Entry) (m : Map Entry) (r : ℕ × Map Entry)
    → Shrinks bytes m r
    → Shrinks bytes ((k, e) ∷ m) (r.0, (k, e) ∷ r.1)
unfolding lookup
Shrinks-keep bytes k e m r h = record {
  counted = omega (arith, h.counted);
  shorter = omega (arith, h.shorter);
  distinct = λ d. (h.absent k d.0, h.distinct d.1);
  absent = λ j g. ground (arith, g, h.absent j);
}

pub evict_expired-Shrinks :
    (now bytes : ℕ) (m : Map Entry) → total m ≤ bytes → Shrinks bytes m (evict_expired now bytes m)
unfolding evict_expired
evict_expired-Shrinks now bytes [] l = Shrinks-refl bytes []
evict_expired-Shrinks now bytes ((k, e) ∷ m) l =
    let without = evict_expired now (bytes - e.bytes) m in
    let rest = evict_expired now bytes m in
    if_both (Shrinks bytes ((k, e) ∷ m)) (ltb e.expires_at now) without (rest.0, (k, e) ∷ rest.1)
      (Shrinks-drop bytes k e m without (omega (arith, l))
        (evict_expired-Shrinks now (bytes - e.bytes) m (omega (arith, l))))
      (Shrinks-keep bytes k e m rest (evict_expired-Shrinks now bytes m (omega (arith, l))))

module _ (max_entries max_bytes size : ℕ) where
  pub make_room-Shrinks :
      (bytes : ℕ) (m : Map Entry)
      → total m ≤ bytes
      → Shrinks bytes m (make_room max_entries max_bytes size bytes m)
  unfolding make_room
  make_room-Shrinks bytes [] l = Shrinks-refl bytes []
  make_room-Shrinks bytes ((k, e) ∷ m) l =
      let rest = make_room max_entries max_bytes size (bytes - e.bytes) m in
      if_both (Shrinks bytes ((k, e) ∷ m))
        (leb max_entries (length m + 1) || ltb max_bytes (bytes + size)) rest (bytes, (k, e) ∷ m)
        (Shrinks-drop bytes k e m rest (omega (arith, l))
          (make_room-Shrinks (bytes - e.bytes) m (omega (arith, l))))
        (Shrinks-refl bytes ((k, e) ∷ m))

  -- Room for one more entry of the given size, when the count is exact.
  pub make_room-fits :
      (bytes : ℕ) (m : Map Entry)
      → bytes ≡ total m
      → 1 ≤ max_entries
      → size ≤ max_bytes
      → let r = make_room max_entries max_bytes size bytes m in
        (length r.1 + 1 ≤ max_entries) × (r.0 + size ≤ max_bytes)
  unfolding make_room
  make_room-fits bytes [] c p l = (omega (arith, p), omega (arith, c, l))
  make_room-fits bytes ((k, e) ∷ m) c p l =
      ground (arith, p, l, make_room-fits (bytes - e.bytes) m (omega (arith, c)) p l)

pub total-remove-none :
    (k : String) (m : Map Entry) → lookup k m ≡ none → total (remove k m) ≡ total m
unfolding lookup remove
total-remove-none k [] h = refl
total-remove-none k ((j, e) ∷ m) h = ground (arith, total-remove-none k m)

pub total-remove :
    (k : String) (m : Map Entry) (e : Entry)
    → Distinct m
    → lookup k m ≡ some e
    → total (remove k m) + e.bytes ≡ total m
unfolding lookup remove
total-remove k [] e d h = absurd (ground (arith, h))
total-remove k ((j, f) ∷ m) e d h = ground (
  arith,
  h,
  total-remove k m e d.1,
  total-remove-none k m,
  eq_iff j k,
  ap (λ i. lookup i m) {x = j} {y = k},
)

-- The count and the map after the old entry under a key has gone.
pub drop_old-Shrinks :
    (key : String) (bytes : ℕ) (m : Map Entry) (o : Option Entry)
    → Distinct m
    → bytes ≡ total m
    → lookup key m ≡ o
    → let r = drop_old key bytes m o in (r.0 ≡ total r.1) × (lookup key r.1 ≡ none) × Distinct r.1
drop_old-Shrinks key bytes m none d c h = (c, h, d)
drop_old-Shrinks key bytes m (some e) d c h =
    (omega (arith, c, total-remove key m e d h), lookup-remove_self key m, Distinct-remove key m d)

-- A count and a map that fit together, without the given key.
pub record IsReady (key : String) (r : ℕ × Map Entry) : Type 0 where
  pub counted : r.0 ≡ total r.1
  pub absent : lookup key r.1 ≡ none
  pub distinct : Distinct r.1

pub IsReady-Shrinks :
    (key : String) (bytes : ℕ) (m : Map Entry) (r : ℕ × Map Entry)
    → IsReady key (bytes, m)
    → Shrinks bytes m r
    → IsReady key r
IsReady-Shrinks key bytes m r w h = record {
  counted = omega (arith, w.counted, h.counted);
  absent = h.absent key w.absent;
  distinct = h.distinct w.distinct;
}
