-- ===== src/Continuity/Restart.antt =====
-- A restart: what flush has written comes back with load. And the keys of the store, which keep the
-- tenants apart.
use grokcli2api_go.Prelude.{
  ℕ, ◌≤◌, String, ◌≡◌, ◌≢◌, refl, sym, ◌∙◌, true, false, Option, none, some, ◌<◌, ◌↔◌, arith,
  if◌then◌else◌, length, ◌==◌, eq_iff, le→not_ltb,
}
use grokcli2api_go.Prelude.Map.{lookup, keep, kept, lookup-keep, length-keep-le}
use grokcli2api_go.Pool.{Affinity, Digest}
use grokcli2api_go.Pool.AffinityKeys.{NulFree, before_nul, ◌then_text◌, nul}
use grokcli2api_go.Pool.Acquire.{is_hard}
use grokcli2api_go.Continuity.{
  Binding, byte_length, Store, continuity_key, load, is_loadable, flush, evict,
}
use grokcli2api_go.Continuity.Eviction.{Distinct-evict}
use grokcli2api_go.Continuity.Bindings.{IsWellFormed, length-evict-le}

lookup-load :
    (now later : ℕ) (s new : Store) (key : String)
    → IsWellFormed s
    → s.dirty ≡ true
    → s.limit ≤ new.limit
    → let flushed = flush now true s in
      lookup key (load later flushed.1 new).bindings
      ≡ kept (is_loadable later key) (lookup key flushed.0.bindings)
unfolding load flush
lookup-load now later s new key w dirty l =
    let rest = evict s.limit now s.bindings in
    let d = Distinct-evict s.limit now s.bindings w.keys_differ in
    rw
      (
        dirty,
        le→not_ltb new.limit (length (keep (is_loadable later) rest)) (
            omega (
              arith,
              l,
              length-keep-le (is_loadable later) rest,
              length-evict-le s.limit now s.bindings w.keys_differ w.has_room,
            )),
      )
      (lookup-keep (is_loadable later) key rest d)

-- A binding comes back just if it can be loaded.
kept-some :
    (now : ℕ) (key : String) (b : Binding) (o : Option Binding)
    → (kept (is_loadable now key) o ≡ some b) ↔ (
        (o ≡ some b)
        × (byte_length key ≡ 64)
        × (now < b.expires_at)
        × (b.account_id ≢ "")
        × (b.session_id ≢ ""))
unfolding is_loadable
kept-some now key b none = (λ h. cc, λ h. h.0)
kept-some now key b (some c) = (
  λ h. ground (arith, h, eq_iff c.account_id "", eq_iff c.session_id ""),
  λ h. ground (arith, h, eq_iff c.account_id "", eq_iff c.session_id ""),
)

-- A well-formed store that has changed is written without what its eviction drops. A new process
-- with that limit, or a larger one, finds a binding under a key just if the store after that write has
-- it, the key has 64 bytes, as a hexadecimal SHA-256 digest has, the binding has not expired, and it
-- names an account and a session.
pub load-flush :
    (now later : ℕ) (s new : Store) (key : String) (b : Binding)
    → IsWellFormed s
    → s.dirty ≡ true
    → s.limit ≤ new.limit
    → let flushed = flush now true s in
      (lookup key (load later flushed.1 new).bindings ≡ some b) ↔ (
        (lookup key flushed.0.bindings ≡ some b)
        × (byte_length key ≡ 64)
        × (later < b.expires_at)
        × (b.account_id ≢ "")
        × (b.session_id ≢ ""))
load-flush now later s new key b w dirty l =
    let whole = lookup-load now later s new key w dirty l in
    let entry = kept-some later key b (lookup key (flush now true s).0.bindings) in
    (λ h. entry.0 (sym whole ∙ h), λ h. whole ∙ entry.1 h)

abbrev pub namespace_of : String → String
namespace_of tenant = if tenant == "" then "public" else tenant

-- What continuityKey hashes.
abbrev pub key_text : String → Affinity → String → String
key_text tenant a model =
    "grokcli2api-affinity-v1"
    then_text nul
    then_text namespace_of tenant
    then_text nul
    then_text a.key
    then_text nul
    then_text model

hashed :
    (d : Digest) (tenant : String) (a : Affinity) (model : String)
    → a.key ≢ ""
    → is_hard a.mode ≡ true
    → continuity_key d tenant a model ≡ d.hex (key_text tenant a model)
unfolding continuity_key
hashed d tenant a model k m = rw (empty a.key k, m) refl
  where
    empty : (t : String) → t ≢ "" → (t == "") ≡ false
    empty t n = ground (arith, n, eq_iff t "")

-- Two hard affinities that share a key of the store are of one tenant, one affinity and one model,
-- when the tenants and the affinities' keys hold no NUL, the keys are not empty, and the two texts that
-- are hashed are not a collision of the digest.
pub continuity_key_injective :
    (d : Digest) (tenant other : String) (a b : Affinity) (m n : String)
    → (d.hex (key_text tenant a m) ≡ d.hex (key_text other b n)
        → key_text tenant a m ≡ key_text other b n)
    → NulFree (namespace_of tenant)
    → NulFree (namespace_of other)
    → NulFree a.key
    → NulFree b.key
    → a.key ≢ ""
    → b.key ≢ ""
    → is_hard a.mode ≡ true
    → is_hard b.mode ≡ true
    → continuity_key d tenant a m ≡ continuity_key d other b n
    → (namespace_of tenant ≡ namespace_of other) × (a.key ≡ b.key) × (m ≡ n)
continuity_key_injective d tenant other a b m n inj ft fo fa fb ka kb ha hb h =
    let same = inj (sym (hashed d tenant a m ka ha) ∙ h ∙ hashed d other b n kb hb) in
    let past =
      before_nul "grokcli2api-affinity-v1" "grokcli2api-affinity-v1" _ _ version_free version_free
        same in
    let split = before_nul (namespace_of tenant) (namespace_of other) _ _ ft fo past.1 in
    let last = before_nul a.key b.key m n fa fb split.1 in (split.0, last.0, last.1)
  where
    version_free : NulFree "grokcli2api-affinity-v1"
    version_free = ground arith
