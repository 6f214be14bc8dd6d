-- ===== src/Continuity/Eviction.antt =====
-- evictLocked: what it leaves in the store, how much, and in which order it drops.
use grokcli2api_go.Prelude.{
  ℕ, ◌+◌, ◌-◌, ◌≤◌, String, ◌≡◌, sym, ◌∙◌, inl, inr, true, none, some, arith, if◌then◌else◌, ltb,
  length, Option-cases, if_both,
}
use grokcli2api_go.Prelude.Map.{Map, lookup, keep, Distinct, found, lookup-keep, Distinct-keep}
use grokcli2api_go.Continuity.{Binding, is_live, candidates, sort_times, evict}
use grokcli2api_go.Continuity.Order.{
  expiry, lookup-candidates, length-candidates, Distinct-candidates, lookup-sort_times,
  length-sort_times, Distinct-sort_times, Sorted-sort_times,
}
use grokcli2api_go.Continuity.Removal.{
  first, Within, lookup-remove_first, Distinct-remove_first, length-remove_first, first-Sorted,
  first-lookup,
}

module _ (now : ℕ) (m : Map Binding) where
  -- The bindings that have not expired.
  abbrev pub live_bindings : Map Binding
  live_bindings = keep (λ k b. is_live now b) m

abbrev items : Map Binding → Map ℕ
items m = sort_times (candidates m)

lookup-items :
    (k : String) (m : Map Binding) → Distinct m → lookup k (items m) ≡ expiry (lookup k m)
lookup-items k m d =
    lookup-sort_times k (candidates m) (Distinct-candidates m d) ∙ lookup-candidates k m

Distinct-items : (m : Map Binding) → Distinct m → Distinct (items m)
Distinct-items m d = Distinct-sort_times (candidates m) (Distinct-candidates m d)

length-items : (m : Map Binding) → length (items m) ≡ length m
length-items m = length-sort_times (candidates m) ∙ length-candidates m

Within-items : (m : Map Binding) → Distinct m → Within (items m) m
Within-items m d k h = ground (arith, h, lookup-items k m d)

pub Distinct-evict : (limit now : ℕ) (m : Map Binding) → Distinct m → Distinct (evict limit now m)
unfolding evict
Distinct-evict limit now m d =
    let live = live_bindings now m in
    let e = Distinct-keep (λ k b. is_live now b) m d in
    if_both Distinct (ltb (length live) limit) live _ e
      (Distinct-remove_first (length live - limit + 1) (items live) live e)

-- An eviction with a limit of at least one, from a map with no key twice, drops what has expired,
-- and when that does not leave room for one more binding it drops more, so that the store is one
-- short of its limit after it. It never drops more than that.
pub length-evict :
    (limit now : ℕ) (m : Map Binding)
    → Distinct m
    → 1 ≤ limit
    → length (evict limit now m) ≡ (
        if ltb (length (live_bindings now m)) limit
        then length (live_bindings now m)
        else limit - 1)
unfolding evict
length-evict limit now m d l =
    let live = live_bindings now m in
    let e = Distinct-keep (λ k b. is_live now b) m d in
    ground (
      arith,
      l,
      length-items live,
      length-remove_first (length live - limit + 1) (items live) live (Distinct-items live e) e
          (Within-items live e),
    )

-- What an eviction leaves was there before, as it is, and has not expired.
pub lookup-evict :
    (limit now : ℕ) (m : Map Binding) (k : String) (b : Binding)
    → Distinct m
    → lookup k (evict limit now m) ≡ some b
    → (lookup k m ≡ some b) × (is_live now b ≡ true)
unfolding evict
lookup-evict limit now m k b d h =
    let live = live_bindings now m in
    let e = Distinct-keep (λ k b. is_live now b) m d in
    ground (
      arith,
      h,
      lookup-keep (λ k b. is_live now b) k m d,
      lookup-remove_first (length live - limit + 1) (items live) live k (Distinct-items live e),
    )

-- A binding that an eviction drops although it has not expired expires no later than each one left,
-- in a map with no key twice.
pub evict_drops_oldest :
    (limit now : ℕ) (m : Map Binding) (k j : String) (b c : Binding)
    → Distinct m
    → lookup k m ≡ some b
    → is_live now b ≡ true
    → lookup k (evict limit now m) ≡ none
    → lookup j (evict limit now m) ≡ some c
    → b.expires_at ≤ c.expires_at
unfolding evict
evict_drops_oldest limit now m k j b c d hk live_b gone left =
    let live = live_bindings now m in
    let e = Distinct-keep (λ k b. is_live now b) m d in
    let n = length live - limit + 1 in
    ground (
      arith,
      hk,
      live_b,
      gone,
      left,
      lookup-keep (λ k b. is_live now b) k m d,
      lookup-remove_first n (items live) live k (Distinct-items live e),
      lookup-remove_first n (items live) live j (Distinct-items live e),
      lookup-items k live e,
      lookup-items j live e,
      first_expiry n live e k,
      first-Sorted n (items live) k j b.expires_at c.expires_at
          (Sorted-sort_times (candidates live)),
    )
  where
    first_expiry :
        (n : ℕ) (live : Map Binding)
        → Distinct live
        → (k : String) → found (lookup k (first n (items live))) ≡ true
        → lookup k (first n (items live)) ≡ lookup k (items live)
    first_expiry n live e k f = elim (Option-cases (lookup k (first n (items live)))) [
      | inl o ↦ absurd (ground (arith, f, o))
      | inr (t, o) ↦ o ∙ sym (first-lookup n (items live) k t o)
    ]
