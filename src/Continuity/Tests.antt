-- ===== src/Continuity/Tests.antt =====
-- Runs of the continuity store.
use grokcli2api_go.Prelude.{
  ◌<◌, ◌↔◌, ◌≢◌, String, ◌+◌, ◌-◌, ◌≤◌, ◌≡◌, refl, true, [], ◌∷◌, arith, length, some, ltb,
  if◌then◌else◌,
}
use grokcli2api_go.Prelude.Text.{texts_differ}
use grokcli2api_go.Prelude.Map.{lookup, keep, remove}
use grokcli2api_go.Pool.{Digest}
use grokcli2api_go.Pool.AffinityKeys.{◌then_text◌}
use grokcli2api_go.Continuity.{
  byte_length, Binding, Store, continuity_key, hard_affinity, lookup_binding, bind, evict, flush,
  load, is_loadable,
}
use grokcli2api_go.Continuity.Eviction.{live_bindings, length-evict, evict_drops_oldest}
use grokcli2api_go.Continuity.Bindings.{
  IsWellFormed, reserved, account_deleted, flushed, looked_up, perform_all,
  perform_all-IsWellFormed,
}
use grokcli2api_go.Continuity.Turns.{
  reserve_all, counting, reserve_all_counts, lookup_binding-bind, made_binding,
}
use grokcli2api_go.Continuity.Restart.{load-flush, continuity_key_injective, namespace_of}

abbrev plain_digest : Digest
plain_digest = record { hex = λ s. s; byte = λ s i. 0 }

abbrev session : Binding
session = record {
  kind = "session";
  account_id = "a";
  model = "grok-4";
  backend = "responses";
  session_id = "s";
  next_turn = 3;
  expires_at = 100;
}

abbrev later_session : Binding
later_session = record session { account_id = "b"; expires_at = 200 }

abbrev full_store : Store
full_store = record {
  ttl = 50;
  limit = 2;
  bindings = ("x", session) ∷ ("y", later_session) ∷ [];
  dirty = true;
  has_wake = true;
}

full_store-IsWellFormed : IsWellFormed full_store
unfolding lookup
full_store-IsWellFormed = record {
  keys_differ = (refl, (refl, tt));
  in_limit = ground arith;
  has_room = ground arith;
}

bounded_example : IsWellFormed (
    perform_all plain_digest
      (reserved 5 "x"
        ∷ looked_up 6 "t" (hard_affinity "session:1") "grok-4"
        ∷ account_deleted "b"
        ∷ flushed 9 true
        ∷ [])
      full_store)
bounded_example =
    perform_all-IsWellFormed plain_digest
      (reserved 5 "x"
        ∷ looked_up 6 "t" (hard_affinity "session:1") "grok-4"
        ∷ account_deleted "b"
        ∷ flushed 9 true
        ∷ [])
      full_store full_store-IsWellFormed

turns_example : reserve_all (10 ∷ 20 ∷ 60 ∷ []) "x" full_store ≡ counting 3 (10 ∷ 20 ∷ 60 ∷ [])
unfolding lookup
turns_example =
    reserve_all_counts (10 ∷ 20 ∷ 60 ∷ []) "x" full_store session (texts_differ "x" "" refl) refl
      (ground arith, (ground arith, (ground arith, tt)))

abbrev digest_key : String
digest_key = "0123456789abcdef0123456789abcdef0123456789abcdef0123456789abcdef"

abbrev saved_store : Store
saved_store = record full_store { bindings = (digest_key, later_session) ∷ [] }

saved_store-IsWellFormed : IsWellFormed saved_store
unfolding lookup
saved_store-IsWellFormed = record {
  keys_differ = (refl, tt);
  in_limit = ground arith;
  has_room = ground arith;
}

restart_example :
    (lookup digest_key (load 30 (flush 20 true saved_store).1 full_store).bindings
      ≡ some later_session)
    ↔ ((lookup digest_key (flush 20 true saved_store).0.bindings ≡ some later_session)
        × (byte_length digest_key ≡ 64)
        × (30 < later_session.expires_at)
        × (later_session.account_id ≢ "")
        × (later_session.session_id ≢ ""))
restart_example =
    load-flush 20 30 saved_store full_store digest_key later_session saved_store-IsWellFormed refl
      (ground arith)

saved_comes_back :
    lookup digest_key (load 30 (flush 20 true saved_store).1 full_store).bindings
    ≡ some later_session
unfolding load flush evict is_loadable byte_length lookup keep
saved_comes_back = refl

room_example : length (evict 2 20 full_store.bindings) ≡ (
    if ltb (length (live_bindings 20 full_store.bindings)) 2
    then length (live_bindings 20 full_store.bindings)
    else 2 - 1)
unfolding lookup
room_example = length-evict 2 20 full_store.bindings (refl, (refl, tt)) (ground arith)

oldest_example : session.expires_at ≤ later_session.expires_at
unfolding lookup evict keep remove
oldest_example =
    evict_drops_oldest 2 20 full_store.bindings "x" "y" session later_session (refl, (refl, tt))
      refl refl refl refl

abbrev bound_store : Store
unfolding continuity_key ◌then_text◌
bound_store =
    bind 20 (continuity_key plain_digest "t" (hard_affinity "session:1") "grok-4")
      (hard_affinity "session:1") "a" "grok-4" "responses" "s" 1 full_store

abbrev found_binding : Binding
found_binding = made_binding (hard_affinity "session:1") "a" "grok-4" "responses" "s" 1 (40 + 50)

bind_example :
    ((lookup_binding plain_digest 40 "t" (hard_affinity "session:1") "grok-4" bound_store).2
      ≡ some found_binding)
    × ((lookup_binding plain_digest 40 "t" (hard_affinity "session:1") "grok-4" bound_store).1
        ≡ continuity_key plain_digest "t" (hard_affinity "session:1") "grok-4")
    × (lookup
          (continuity_key plain_digest "t" (hard_affinity "session:1") "grok-4")
          (lookup_binding plain_digest 40 "t"
            (hard_affinity "session:1")
            "grok-4"
            bound_store).0.bindings
        ≡ some found_binding)
unfolding continuity_key ◌then_text◌
bind_example =
    lookup_binding-bind plain_digest 20 40 "t" (hard_affinity "session:1") "a" "grok-4" "responses"
      "s" 1 full_store
      (texts_differ (continuity_key plain_digest "t" (hard_affinity "session:1") "grok-4") "" refl)
      (texts_differ "a" "" refl) (texts_differ "grok-4" "" refl) (texts_differ "s" "" refl)
      (ground arith)

keys_example :
    (namespace_of "t" ≡ namespace_of "t")
    × ((hard_affinity "session:1").key ≡ (hard_affinity "session:1").key)
    × (session.model ≡ session.model)
keys_example =
    continuity_key_injective plain_digest "t" "t" (hard_affinity "session:1")
      (hard_affinity "session:1") session.model session.model (λ h. h) (ground arith) (ground arith)
      (ground arith) (ground arith) (texts_differ "session:1" "" refl)
      (texts_differ "session:1" "" refl) refl refl refl
