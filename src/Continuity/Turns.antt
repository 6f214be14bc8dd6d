-- ===== src/Continuity/Turns.antt =====
-- A binding in use: the turns that ReserveTurn gives out, and what a lookup finds after Bind.
use grokcli2api_go.Prelude.{
  ℕ, ◌+◌, ◌%◌, ◌^◌, ◌<◌, String, ◌≡◌, ◌≢◌, refl, ap, false, Option, none, some, List, [], ◌∷◌,
  arith, ◌==◌, eq_iff, Bool-cases, inl, inr, lt→ltb,
}
use grokcli2api_go.Prelude.Map.{lookup, insert, lookup-insert_self}
use grokcli2api_go.Pool.{Affinity, Digest}
use grokcli2api_go.Continuity.{
  Binding, Store, affinity_kind, continuity_key, lookup_binding, reserve_turn, bind, changed, evict,
}

abbrev pub turn_of : Option (Binding × ℕ) → Option ℕ
turn_of none = none
turn_of (some (b, n)) = some n

-- The turns that a sequence of reservations of one key gives, at the times of the calls.
unfoldable pub reserve_all : List ℕ → String → Store → List (Option ℕ)
unfolding reserve_turn
reserve_all [] key s = []
reserve_all (now ∷ times) key s =
    turn_of (reserve_turn now key s).1 ∷ reserve_all times key (reserve_turn now key s).0

-- Each call comes before the binding expires, and each call lets it live for `ttl` from then on.
abbrev pub InTime : ℕ → ℕ → List ℕ → Type 0
InTime ttl expires_at [] = Unit
InTime ttl expires_at (now ∷ times) = (now < expires_at) × InTime ttl (now + ttl) times

-- n, n + 1, ... for each call, as a 64-bit counter.
unfoldable pub counting : ℕ → List ℕ → List (Option ℕ)
counting n [] = []
counting n (now ∷ times) = some n ∷ counting ((n + 1) % 2 ^ 64) times

abbrev pub advanced : Store → ℕ → Binding → Binding
advanced s now b = record b { next_turn = (b.next_turn + 1) % 2 ^ 64; expires_at = now + s.ttl }

pub reserve_turn_live :
    (now : ℕ) (key : String) (s : Store) (b : Binding)
    → key ≢ ""
    → lookup key s.bindings ≡ some b
    → now < b.expires_at
    → reserve_turn now key s
      ≡ (changed s (insert key (advanced s now b) s.bindings), some (advanced s now b, b.next_turn))
unfolding reserve_turn
reserve_turn_live now key s b n h l =
    let named = Bool-cases (key == "") in
    elim named [
      | inl e ↦ absurd (n ((eq_iff key "").0 e))
      | inr e ↦ rw (e, h, lt→ltb now b.expires_at l) refl
    ]

-- Reservations of a session's key give its next turns one after the other, each turn once, as long as
-- each comes before the session expires. A reservation extends the session.
pub reserve_all_counts :
    (times : List ℕ) (key : String) (s : Store) (b : Binding)
    → key ≢ ""
    → lookup key s.bindings ≡ some b
    → InTime s.ttl b.expires_at times
    → reserve_all times key s ≡ counting b.next_turn times
unfolding reserve_all counting
reserve_all_counts [] key s b n h t = refl
reserve_all_counts (now ∷ times) key s b n h t =
    let c = advanced s now b in
    let next = changed s (insert key c s.bindings) in
    rw (reserve_turn_live now key s b n h t.0) (
      ap (λ rest. some b.next_turn ∷ rest)
        (reserve_all_counts times key next c n (lookup-insert_self key c s.bindings) t.1))

-- What Bind makes.
abbrev pub made_binding : Affinity → String → String → String → String → ℕ → ℕ → Binding
made_binding affinity account_id model backend session_id next_turn expires_at = record {
  kind = affinity_kind affinity;
  account_id = account_id;
  model = model;
  backend = backend;
  session_id = session_id;
  next_turn = next_turn;
  expires_at = expires_at;
}

-- A binding with a key, an account, a model and a session is found by a lookup of its tenant,
-- affinity and model until the time to live has passed, with the account, the backend, the session
-- and the turn that it was made with. The lookup gives it a whole time to live from then on, and leaves
-- it so in the store, under the key that it reports.
pub lookup_binding-bind :
    (d : Digest) (now later : ℕ) (tenant : String) (affinity : Affinity)
    (account_id model backend session_id : String) (next_turn : ℕ) (s : Store)
    → continuity_key d tenant affinity model ≢ ""
    → account_id ≢ ""
    → model ≢ ""
    → session_id ≢ ""
    → later < now + s.ttl
    → let key = continuity_key d tenant affinity model in
      let bound = bind now key affinity account_id model backend session_id next_turn s in
      let found = lookup_binding d later tenant affinity model bound in
      let b = made_binding affinity account_id model backend session_id next_turn (later + s.ttl) in
      (found.2 ≡ some b) × (found.1 ≡ key) × (lookup key found.0.bindings ≡ some b)
unfolding lookup_binding bind
lookup_binding-bind d now later tenant affinity account_id model backend session_id next_turn s k a
      m i l =
    let key = continuity_key d tenant affinity model in
    let b = made_binding affinity account_id model backend session_id next_turn (now + s.ttl) in
    let rest = evict s.limit now s.bindings in
    rw
      (
        not_same _ k,
        not_same _ a,
        not_same _ m,
        not_same _ i,
        lookup-insert_self key b rest,
        lt→ltb later (now + s.ttl) l,
      )
      (refl, refl, lookup-insert_self key _ (insert key b rest))
  where
    not_same : (t : String) → t ≢ "" → (t == "") ≡ false
    not_same t n = ground (arith, n, eq_iff t "")
