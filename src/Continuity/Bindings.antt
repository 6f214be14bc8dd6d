-- ===== src/Continuity/Bindings.antt =====
-- The operations of the store one by one and in sequence: its bound, and what a binding is worth.
use grokcli2api_go.Prelude.{
  ℕ, ◌+◌, ◌≤◌, String, ◌≡◌, ◌≢◌, refl, Bool, true, false, not, ◌||◌, Option, none, some, List, [],
  ◌∷◌, arith, length, ◌==◌, eq_iff, if_both,
}
use grokcli2api_go.Prelude.Map.{
  Map, lookup, insert, remove, Distinct, kept, lookup-keep, Distinct-keep, Distinct-insert,
  Distinct-remove, length-keep-le, length-insert-le, length-insert_old, length-remove-le,
}
use grokcli2api_go.Pool.{Affinity, Digest}
use grokcli2api_go.Continuity.{
  Binding, Store, affinity_kind, continuity_key, is_live, renewed, look_at, lookup_binding,
  reserve_of, reserve_turn, bind, delete_account, flush, evict,
}
use grokcli2api_go.Continuity.Eviction.{Distinct-evict, length-evict}

-- A key once, no more bindings than the limit, and room for at least one.
pub record IsWellFormed (s : Store) : Type 0 where
  pub keys_differ : Distinct s.bindings
  pub in_limit : length s.bindings ≤ s.limit
  pub has_room : 1 ≤ s.limit

-- The operations that the server calls, with their readings of the clock.
pub data Operation : Type 0 where
  looked_up : ℕ → String → Affinity → String → Operation
  reserved : ℕ → String → Operation
  bound : ℕ → String → Affinity → String → String → String → String → ℕ → Operation
  account_deleted : String → Operation
  flushed : ℕ → Bool → Operation

module _ (d : Digest) where
  unfoldable pub perform : Operation → Store → Store
  unfolding lookup_binding reserve_turn bind delete_account flush
  perform (looked_up now tenant affinity model) s = (lookup_binding d now tenant affinity model s).0
  perform (reserved now key) s = (reserve_turn now key s).0
  perform (bound now key affinity account_id model backend session_id next_turn) s =
      bind now key affinity account_id model backend session_id next_turn s
  perform (account_deleted account_id) s = delete_account account_id s
  perform (flushed now is_written) s = (flush now is_written s).0

  unfoldable pub perform_all : List Operation → Store → Store
  unfolding perform
  perform_all [] s = s
  perform_all (o ∷ os) s = perform_all os (perform o s)

pub length-evict-le :
    (limit now : ℕ) (m : Map Binding)
    → Distinct m
    → 1 ≤ limit
    → length (evict limit now m) + 1 ≤ limit
length-evict-le limit now m d l = ground (arith, l, length-evict limit now m d l)

insert_old-IsWellFormed :
    (s : Store) (key : String) (b c : Binding) (dirty wake : Bool)
    → IsWellFormed s
    → lookup key s.bindings ≡ some b
    → IsWellFormed (record s { bindings = insert key c s.bindings; dirty = dirty; has_wake = wake })
insert_old-IsWellFormed s key b c dirty wake w h = record {
  keys_differ = Distinct-insert key c s.bindings w.keys_differ;
  in_limit = omega (arith, w.in_limit, length-insert_old key c b s.bindings h);
  has_room = w.has_room;
}

remove-IsWellFormed :
    (s : Store) (key : String) (dirty wake : Bool)
    → IsWellFormed s
    → IsWellFormed (record s { bindings = remove key s.bindings; dirty = dirty; has_wake = wake })
remove-IsWellFormed s key dirty wake w = record {
  keys_differ = Distinct-remove key s.bindings w.keys_differ;
  in_limit = omega (arith, w.in_limit, length-remove-le key s.bindings);
  has_room = w.has_room;
}

evict-IsWellFormed :
    (s : Store) (now : ℕ) (dirty wake : Bool)
    → IsWellFormed s
    → IsWellFormed
        (record s { bindings = evict s.limit now s.bindings; dirty = dirty; has_wake = wake })
evict-IsWellFormed s now dirty wake w = record {
  keys_differ = Distinct-evict s.limit now s.bindings w.keys_differ;
  in_limit = omega (arith, length-evict-le s.limit now s.bindings w.keys_differ w.has_room);
  has_room = w.has_room;
}

abbrev FirstIsWellFormed : {A : Type 0} → Store × A → Type 0
FirstIsWellFormed r = IsWellFormed r.0

look_at-IsWellFormed :
    (now : ℕ) (key : String) (s : Store) (o : Option Binding)
    → IsWellFormed s
    → lookup key s.bindings ≡ o
    → IsWellFormed (look_at now key s o).0
look_at-IsWellFormed now key s none w h = w
look_at-IsWellFormed now key s (some b) w h =
    if_both FirstIsWellFormed (is_live now b) (_, some (renewed s now b)) (_, none)
      (insert_old-IsWellFormed s key b (renewed s now b) true true w h)
      (remove-IsWellFormed s key true true w)

reserve_of-IsWellFormed :
    (now : ℕ) (key : String) (s : Store) (o : Option Binding)
    → IsWellFormed s
    → lookup key s.bindings ≡ o
    → IsWellFormed (reserve_of now key s o).0
reserve_of-IsWellFormed now key s none w h = w
reserve_of-IsWellFormed now key s (some b) w h =
    if_both FirstIsWellFormed (is_live now b) (_, some _) (_, none)
      (insert_old-IsWellFormed s key b _ true true w h) (remove-IsWellFormed s key true true w)

bind-IsWellFormed :
    (now : ℕ) (key : String) (affinity : Affinity) (account_id model backend session_id : String)
    (next_turn : ℕ) (s : Store)
    → IsWellFormed s
    → IsWellFormed (bind now key affinity account_id model backend session_id next_turn s)
unfolding bind
bind-IsWellFormed now key affinity account_id model backend session_id next_turn s w =
    if_both IsWellFormed (key == "" || (account_id == "" || (model == "" || session_id == ""))) s _
      w
      (record {
        keys_differ = Distinct-insert key _ _ (Distinct-evict s.limit now s.bindings w.keys_differ);
        in_limit = omega (
          arith,
          length-insert-le key
              (record {
                kind = affinity_kind affinity;
                account_id = account_id;
                model = model;
                backend = backend;
                session_id = session_id;
                next_turn = next_turn;
                expires_at = now + s.ttl;
              })
              (evict s.limit now s.bindings),
          length-evict-le s.limit now s.bindings w.keys_differ w.has_room,
        );
        has_room = w.has_room;
      })

delete-IsWellFormed :
    (account_id : String) (s : Store) → IsWellFormed s → IsWellFormed (delete_account account_id s)
unfolding delete_account
delete-IsWellFormed account_id s w = if_both IsWellFormed (account_id == "") s _ w (record {
  keys_differ = Distinct-keep _ s.bindings w.keys_differ;
  in_limit =
      omega
        (arith, w.in_limit, length-keep-le (λ k b. not (b.account_id == account_id)) s.bindings);
  has_room = w.has_room;
})

flush-IsWellFormed :
    (now : ℕ) (is_written : Bool) (s : Store)
    → IsWellFormed s
    → IsWellFormed (flush now is_written s).0
unfolding flush
flush-IsWellFormed now is_written s w =
    if_both FirstIsWellFormed (not s.dirty) (s, none) _ w
      (if_both FirstIsWellFormed is_written (_, some _) (_, none)
        (evict-IsWellFormed s now false s.has_wake w) (evict-IsWellFormed s now true true w))

perform-IsWellFormed :
    (d : Digest) (o : Operation) (s : Store) → IsWellFormed s → IsWellFormed (perform d o s)
unfolding perform lookup_binding reserve_turn
perform-IsWellFormed d (looked_up now tenant affinity model) s w =
    let key = continuity_key d tenant affinity model in
    let next = look_at now key s (lookup key s.bindings) in
    if_both (λ (r : Store × String × Option Binding). IsWellFormed r.0) (key == "") (s, "", none)
      (next.0, key, next.1) w (look_at-IsWellFormed now key s (lookup key s.bindings) w refl)
perform-IsWellFormed d (reserved now key) s w =
    if_both FirstIsWellFormed (key == "") (s, none) _ w
      (reserve_of-IsWellFormed now key s (lookup key s.bindings) w refl)
perform-IsWellFormed d (bound now key affinity account_id model backend session_id next_turn) s w =
    bind-IsWellFormed now key affinity account_id model backend session_id next_turn s w
perform-IsWellFormed d (account_deleted account_id) s w = delete-IsWellFormed account_id s w
perform-IsWellFormed d (flushed now is_written) s w = flush-IsWellFormed now is_written s w

-- Whatever sequence of operations runs on it, a well-formed store stays well-formed: no key twice, and
-- no more bindings than its limit.
pub perform_all-IsWellFormed :
    (d : Digest) (os : List Operation) (s : Store)
    → IsWellFormed s
    → IsWellFormed (perform_all d os s)
unfolding perform_all
perform_all-IsWellFormed d [] s w = w
perform_all-IsWellFormed d (o ∷ os) s w =
    perform_all-IsWellFormed d os (perform d o s) (perform-IsWellFormed d o s w)

-- A deletion of an account with an id removes its bindings from a well-formed store, and each other
-- binding stays as it is.
pub lookup-delete_account :
    (account_id key : String) (s : Store)
    → account_id ≢ ""
    → IsWellFormed s
    → lookup key (delete_account account_id s).bindings
      ≡ kept (λ b. not (b.account_id == account_id)) (lookup key s.bindings)
unfolding delete_account
lookup-delete_account account_id key s n w = ground (
  arith,
  eq_iff account_id "",
  lookup-keep (λ k b. not (b.account_id == account_id)) key s.bindings w.keys_differ,
)
