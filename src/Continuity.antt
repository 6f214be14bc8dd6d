-- ===== src/Continuity.antt =====
-- internal/server/continuity.go: the store that binds a session, a previous response or a state token
-- of a tenant to the account, the backend and the upstream session that serve it. A time counts
-- nanoseconds, and the order of the bindings is any order of iteration over the map.
pub mod Order
pub mod Removal
pub mod Eviction
pub mod Bindings
pub mod Turns
pub mod Restart
mod Tests
use Prim.Native.Char.{code}
use grokcli2api_go.Prelude.{
  ℕ, zero, suc, ◌+◌, ◌-◌, ◌%◌, ◌^◌, String, Bool, true, false, not, ◌&&◌, ◌||◌, Option, none, some,
  List, [], ◌∷◌, ◌==◌, if◌then◌else◌, ltb, leb, eqb, length, is_nil,
}
use text.Mathlib.Text.{starts_with}
use grokcli2api_go.Prelude.Map.{Map, lookup, remove, insert, keep}
use grokcli2api_go.Pool.{Affinity, affinity_hard, Digest}
use grokcli2api_go.Pool.AffinityKeys.{◌then_text◌, nul}
use grokcli2api_go.Pool.Acquire.{is_hard}

pub record Binding : Type 0 where
  pub kind : String
  pub account_id : String
  pub model : String
  pub backend : String
  pub session_id : String
  pub next_turn : ℕ
  pub expires_at : ℕ

-- `has_wake` is the token in the channel `wake`, which the checkpoint loop takes.
pub record Store : Type 0 where
  pub ttl : ℕ
  pub limit : ℕ
  pub bindings : Map Binding
  pub dirty : Bool
  pub has_wake : Bool

-- The state file. A missing map is `none`.
pub record FileState : Type 0 where
  pub version : ℕ
  pub hard_affinities : Option (Map Binding)

-- The fields that newContinuityStore sets before it loads the file.
unfoldable pub new_store : ℕ → ℕ → Store
new_store ttl limit = record {
  ttl = if eqb ttl 0 then 3600000000000 else ttl;
  limit = if ltb limit 1 then 100000 else limit;
  bindings = [];
  dirty = false;
  has_wake = false;
}

unfoldable pub continuity_key : Digest → String → Affinity → String → String
unfolding ◌then_text◌
continuity_key d tenant affinity model =
    if affinity.key == "" || not (is_hard affinity.mode)
    then ""
    else d.hex (
        "grokcli2api-affinity-v1"
        then_text nul
        then_text (if tenant == "" then "public" else tenant)
        then_text nul
        then_text affinity.key
        then_text nul
        then_text model)

unfoldable pub affinity_kind : Affinity → String
affinity_kind affinity =
    if starts_with affinity.key "previous:" && not (affinity.key == "previous:")
    then "previous_response"
    else if starts_with affinity.key "session:" && not (affinity.key == "session:")
    then "session"
    else "state"

-- now.Before(binding.ExpiresAt)
abbrev pub is_live : ℕ → Binding → Bool
is_live now b = ltb now b.expires_at

-- signalLocked
abbrev pub signal : Store → Store
signal s = record s { has_wake = true }

-- s.bindings = m, s.dirty = true, s.signalLocked()
abbrev pub changed : Store → Map Binding → Store
changed s m = record s { bindings = m; dirty = true; has_wake = true }

abbrev pub renewed : Store → ℕ → Binding → Binding
renewed s now b = record b { expires_at = now + s.ttl }

abbrev pub look_at : ℕ → String → Store → Option Binding → Store × Option Binding
look_at now key s none = (s, none)
look_at now key s (some b) =
    if is_live now b
    then (changed s (insert key (renewed s now b) s.bindings), some (renewed s now b))
    else (changed s (remove key s.bindings), none)

-- Lookup, for the key that continuityKey gives.
unfoldable pub lookup_binding :
    Digest → ℕ → String → Affinity → String → Store → Store × String × Option Binding
unfolding continuity_key
lookup_binding d now tenant affinity model s =
    let key = continuity_key d tenant affinity model in
    let (next, found) = look_at now key s (lookup key s.bindings) in
    if key == "" then (s, "", none) else (next, key, found)

abbrev pub reserve_of : ℕ → String → Store → Option Binding → Store × Option (Binding × ℕ)
reserve_of now key s none = (s, none)
reserve_of now key s (some b) =
    let next = record b { next_turn = (b.next_turn + 1) % 2 ^ 64; expires_at = now + s.ttl } in
    if is_live now b
    then (changed s (insert key next s.bindings), some (next, b.next_turn))
    else (changed s (remove key s.bindings), none)

-- ReserveTurn
unfoldable pub reserve_turn : ℕ → String → Store → Store × Option (Binding × ℕ)
reserve_turn now key s =
    let found = reserve_of now key s (lookup key s.bindings) in
    if key == "" then (s, none) else found

-- The candidates of evictLocked, with the times at which they expire.
unfoldable pub candidates : Map Binding → Map ℕ
candidates [] = []
candidates ((k, b) ∷ m) = (k, b.expires_at) ∷ candidates m

-- sort.Slice by time, as an insertion sort. Items of one time may come in any order.
unfoldable pub insert_time : String → ℕ → Map ℕ → Map ℕ
insert_time k t [] = (k, t) ∷ []
insert_time k t ((j, u) ∷ m) =
    let rest = insert_time k t m in if ltb u t then (j, u) ∷ rest else (k, t) ∷ (j, u) ∷ m

unfoldable pub sort_times : Map ℕ → Map ℕ
unfolding insert_time
sort_times [] = []
sort_times ((k, t) ∷ m) = insert_time k t (sort_times m)

-- for i := 0; i < remove && i < len(items); i++ { delete(s.bindings, items[i].key) }
unfoldable pub remove_first : ℕ → Map ℕ → Map Binding → Map Binding
remove_first zero items m = m
remove_first (suc n) [] m = m
remove_first (suc n) ((k, t) ∷ items) m = remove_first n items (remove k m)

-- evictLocked, on the bindings.
unfoldable pub evict : ℕ → ℕ → Map Binding → Map Binding
unfolding remove_first sort_times candidates
evict limit now m =
    let live = keep (λ k b. is_live now b) m in
    if ltb (length live) limit
    then live
    else remove_first (length live - limit + 1) (sort_times (candidates live)) live

unfoldable pub bind : ℕ → String → Affinity → String → String → String → String → ℕ → Store → Store
unfolding evict affinity_kind
bind now key affinity account_id model backend session_id next_turn s =
    if key == "" || (account_id == "" || (model == "" || session_id == ""))
    then s
    else changed s (
        insert key
          (record {
            kind = affinity_kind affinity;
            account_id = account_id;
            model = model;
            backend = backend;
            session_id = session_id;
            next_turn = next_turn;
            expires_at = now + s.ttl;
          })
          (evict s.limit now s.bindings))

abbrev pub hard_affinity : String → Affinity
hard_affinity key = record { key = key; mode = affinity_hard; tenant = "" }

unfoldable pub bind_response :
    Digest → ℕ → String → String → String → String → String → String → ℕ → Store → Store
unfolding bind continuity_key ◌then_text◌
bind_response d now tenant response_id account_id model backend session_id next_turn s =
    let affinity = hard_affinity ("previous:" then_text response_id) in
    if response_id == ""
    then s
    else bind now (continuity_key d tenant affinity model) affinity account_id model backend
        session_id next_turn s

unfoldable pub bind_state_token :
    Digest → ℕ → String → String → String → String → String → String → ℕ → Store → Store
unfolding bind continuity_key ◌then_text◌
bind_state_token d now tenant token account_id model backend session_id next_turn s =
    let affinity = hard_affinity ("signature:" then_text token) in
    if token == ""
    then s
    else bind now (continuity_key d tenant affinity model) affinity account_id model backend
        session_id next_turn s

-- DeleteAccount. The signal also goes out when the store was dirty before.
unfoldable pub delete_account : String → Store → Store
delete_account account_id s =
    let rest = keep (λ k b. not (b.account_id == account_id)) s.bindings in
    let dirty = s.dirty || ltb (length rest) (length s.bindings) in
    if account_id == ""
    then s
    else record s { bindings = rest; dirty = dirty; has_wake = s.has_wake || dirty }

-- len of a Go string: the bytes of its UTF-8 form
unfoldable pub byte_length : String → ℕ
byte_length String.[] = 0
byte_length (String.◌∷◌ c s) =
    (if ltb (code c) 128
      then 1
      else if ltb (code c) 2048
      then 2
      else if ltb (code c) 65536
      then 3
      else 4)
    + byte_length s

unfoldable pub is_loadable : ℕ → String → Binding → Bool
unfolding byte_length
is_loadable now key b =
    eqb (byte_length key) 64
    && (is_live now b && (not (b.account_id == "") && not (b.session_id == "")))

-- load, for the file's content: none when it cannot be read or is not JSON. It runs on a new store, so
-- that the map it fills is empty before.
abbrev pub load_map : ℕ → Store → Option (Map Binding) → Store
load_map now s none = s
load_map now s (some m) =
    let loaded = keep (is_loadable now) m in
    record s { bindings = if ltb s.limit (length loaded) then evict s.limit now loaded else loaded }

abbrev pub load_file : ℕ → Store → Option FileState → Store
load_file now s none = s
load_file now s (some f) = if eqb f.version 1 then load_map now s f.hard_affinities else s

unfoldable pub load : ℕ → Option FileState → Store → Store
unfolding is_loadable evict
load now file s = load_file now s file

-- flush: what it writes, if anything, and the store after that. `is_written` tells whether writing
-- and renaming the file succeeded.
unfoldable pub flush : ℕ → Bool → Store → Store × Option FileState
unfolding evict
flush now is_written s =
    let rest = evict s.limit now s.bindings in
    if not s.dirty
    then (s, none)
    else if is_written
    then (
      record s { bindings = rest; dirty = false },
      some (record { version = 1; hard_affinities = some rest }),
    )
    else (record s { bindings = rest; dirty = true; has_wake = true }, none)
