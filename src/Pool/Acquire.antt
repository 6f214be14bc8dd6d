-- ===== src/Pool/Acquire.antt =====
-- Acquire: how a request gets an account. One turn of its loop is `acquire_pass`; a turn that finds
-- every account at its limit ends in `must_wait`, and the loop makes another when capacity returns.
-- All readings of the clock in one turn give the same time.
pub mod Best
pub mod Load
pub mod Waiting
pub mod Pinned
use grokcli2api_go.Prelude.{
  ℕ, zero, suc, ◌+◌, ◌-◌, ◌%◌, ◌^◌, String, Bool, true, false, not, ◌&&◌, ◌||◌, Option, none, some,
  List, [], ◌∷◌, ◌==◌, if◌then◌else◌, ltb, leb, eqb, is_nil, has, any, length, get_elem?,
}
use grokcli2api_go.Prelude.Map.{lookup, values}
use grokcli2api_go.Pool.{
  Credential, Account, Pool, Affinity, AffinityMode, affinity_hard, affinity_soft, Error, no_auth,
  account_busy, model_unavailable, Digest,
}
use grokcli2api_go.Pool.Eligibility.{available, request_usable, supports_model, has_model_if_any}
use grokcli2api_go.Pool.AffinityKeys.{affinity_model_key}
use grokcli2api_go.Pool.Shard
use grokcli2api_go.Pool.Heap.{Lease, try_acquire, give_back, new_lease, has_accounts, write}
use grokcli2api_go.Pool.Snapshot.{rebuild_active, scheduling_snapshot}
use grokcli2api_go.Pool.Cooldown.{unavailable_error}
use grokcli2api_go.Pool.Refresh.{Outcome, ensure_usable}

pub data Grant : Type 0 where
  leased : Lease → Grant
  refused : Error → Grant

-- `must_wait` carries the accounts whose refresh has failed, for the next turn.
pub data Pass : Type 0 where
  granted : Lease → Pass
  gave_up : Error → Pass
  must_wait : List String → Pass

-- hasKnownModel
unfoldable pub has_known_model : Pool → String → Bool
has_known_model pool model =
    model == ""
    || any (λ p. has_model_if_any (pool.heap p) (pool.heap p).credential model)
        (values pool.accounts)

-- The error when no account can be scheduled.
unfoldable pub final_error : ℕ → String → Pool → Error
final_error now model pool =
    if not (has_accounts pool)
    then unavailable_error now model pool
    else if not (model == "") && not (has_known_model pool model)
    then model_unavailable model
    else unavailable_error now model pool

abbrev pub is_busy : Error → Bool
is_busy account_busy = true
is_busy _ = false

abbrev pub is_soft : AffinityMode → Bool
is_soft affinity_soft = true
is_soft _ = false

abbrev pub is_hard : AffinityMode → Bool
is_hard affinity_hard = true
is_hard _ = false

-- accountRequestUsable
unfoldable pub account_request_usable : ℕ → String → Pool → Bool
account_request_usable now id pool = elim (lookup id pool.accounts) [
  | none ↦ false
  | some p ↦ request_usable (pool.heap p) now
]

pub record Choice : Type 0 where
  pub pointer : ℕ
  pub inflight : ℕ
  pub is_usable : Bool

abbrev pub same_bool : Bool → Bool → Bool
same_bool true b = b
same_bool false b = not b

-- The condition under which a candidate replaces the account selected so far.
abbrev pub beats : Choice → Option Choice → Bool
beats c none = true
beats c (some s) =
    (c.is_usable && not s.is_usable)
    || (same_bool c.is_usable s.is_usable && ltb c.inflight s.inflight)

module _ (now : ℕ) (model : String) (exclude failed : List String) (pool : Pool) where
  unfoldable pub eligible : ℕ → Bool
  eligible p =
      let a = pool.heap p in
      not (has a.id exclude || has a.id failed) && (available a now && supports_model a now model)

  abbrev pub saturated_account : ℕ → Bool
  saturated_account p =
      ltb 0 pool.account_max_inflight && leb pool.account_max_inflight (pool.heap p).inflight

  abbrev pub choice_of : ℕ → Choice
  choice_of p = record {
    pointer = p;
    inflight = (pool.heap p).inflight;
    is_usable = request_usable (pool.heap p) now;
  }

  -- The inner loop: the account selected from one batch, and whether one was at its limit.
  unfoldable pub choose : Option Choice → Bool → List ℕ → Option Choice × Bool
  unfolding eligible
  choose selected saturated [] = (selected, saturated)
  choose selected saturated (p ∷ ps) =
      choose
        (if eligible p && (not (saturated_account p) && beats (choice_of p) selected)
          then some (choice_of p)
          else selected)
        (saturated || (eligible p && saturated_account p)) ps

-- active[(start+i) % len(active)] for `left` values from `i` on
unfoldable pub turns : List ℕ → ℕ → ℕ → List ℕ
turns active i zero = []
turns active i (suc left) = elim (get_elem? active (i % length active)) [
  | none ↦ turns active (i + 1) left
  | some p ↦ p ∷ turns active (i + 1) left
]

-- Batches of four scheduling choices.
unfoldable pub batches : List ℕ → List (List ℕ)
batches [] = []
batches (a ∷ b ∷ c ∷ d ∷ rest) = (a ∷ b ∷ c ∷ d ∷ []) ∷ batches rest
batches short = short ∷ []

pub record Request : Type 0 where
  pub affinity : Affinity
  pub model : String
  pub exclude : List String

abbrev pub cache_key : Request → String
cache_key r = affinity_model_key r.affinity r.model

-- p.affinity.Set when the request has an affinity
unfoldable pub remember : Digest → ℕ → Request → String → Pool → Pool
remember d now r id pool =
    if r.affinity.key == ""
    then pool
    else record pool { affinity = Shard.set d pool.affinity now (cache_key r) id }

module _ (d : Digest) (idp : Credential → Outcome) (now : ℕ) where
  -- The end of acquireID.
  unfoldable pub lease_account : ℕ → String → Pool × Option Error → Pool × Grant
  unfolding give_back new_lease
  lease_account p model (fresh, none) =
      let (settled, lease) = new_lease fresh p model in (settled, leased lease)
  lease_account p model (fresh, some e) = (give_back fresh p, refused e)

  -- acquireID
  unfoldable pub acquire_id : String → String → List String → Pool → Pool × Grant
  unfolding lease_account try_acquire
  acquire_id id model exclude pool =
      if has id exclude then (pool, refused no_auth) else elim (lookup id pool.accounts) [
        | none ↦ (pool, refused no_auth)
        | some p ↦
            if not (available (pool.heap p) now) || not (supports_model (pool.heap p) now model)
            then (pool, refused no_auth)
            else elim (try_acquire pool p) [
              | none ↦ (pool, refused account_busy)
              | some taken ↦ lease_account p model (ensure_usable d idp now p taken)
            ]
      ]

  -- After the refresh of the account selected: a lease, or the next batch without that account.
  unfoldable pub use_account :
      Request
      → ℕ
      → String
      → List String
      → Bool
      → (List String → Bool → Pool → Pool × Pass)
      → Pool × Option Error
      → Pool × Pass
  unfolding give_back new_lease remember
  use_account r p id failed full next_batch (fresh, none) =
      let (settled, lease) = new_lease (remember d now r id fresh) p r.model in
      (settled, granted lease)
  use_account r p id failed full next_batch (fresh, some e) =
      next_batch (id ∷ failed) full (give_back fresh p)

  unfoldable pub take_account :
      Request
      → ℕ
      → List String
      → Bool
      → (List String → Bool → Pool → Pool × Pass)
      → Pool
      → Option Pool
      → Pool × Pass
  unfolding use_account
  take_account r p failed full next_batch pool none = next_batch failed true pool
  take_account r p failed full next_batch pool (some taken) =
      use_account r p (pool.heap p).id failed full next_batch (ensure_usable d idp now p taken)

  unfoldable pub select_account :
      Request
      → List String
      → Bool
      → (List String → Bool → Pool → Pool × Pass)
      → Pool
      → Option Choice
      → Pool × Pass
  unfolding take_account try_acquire
  select_account r failed full next_batch pool none = next_batch failed full pool
  select_account r failed full next_batch pool (some c) =
      take_account r c.pointer failed full next_batch pool (try_acquire pool c.pointer)

  -- The loop over the batches. When none is left, a saturated account makes the request wait.
  unfoldable pub try_batches : Request → List String → Bool → List (List ℕ) → Pool → Pool × Pass
  unfolding choose select_account
  try_batches r failed saturated [] pool =
      (pool, if saturated then must_wait failed else gave_up (final_error now r.model pool))
  try_batches r failed saturated (batch ∷ rest) pool =
      let (selected, full) = choose now r.model r.exclude failed pool none saturated batch in
      select_account r failed full (λ f s q. try_batches r f s rest q) pool selected

  -- The part of a turn after the affinity: the snapshot, rebuilt once if it is empty.
  unfoldable pub run_schedule : Request → List String → List ℕ → Pool → Pool × Pass
  unfolding try_batches turns batches
  run_schedule r failed [] pool = (pool, gave_up (final_error now r.model pool))
  run_schedule r failed (p ∷ ps) pool =
      let active = p ∷ ps in
      try_batches r failed false
        (batches (turns active (pool.cursor % length active) (length active)))
        (record pool { cursor = (pool.cursor + 1) % 2 ^ 64 })

  unfoldable pub schedule : Request → List String → Pool → Pool × Pass
  unfolding run_schedule scheduling_snapshot
  schedule r failed pool =
      let rebuilt = rebuild_active now pool in
      if is_nil (scheduling_snapshot pool r.model)
      then run_schedule r failed (scheduling_snapshot rebuilt r.model) rebuilt
      else run_schedule r failed (scheduling_snapshot pool r.model) pool

  -- What a turn does once the account bound by affinity has answered.
  abbrev pub after_bound : Request → List String → Pool × Grant → Pool × Pass
  after_bound r failed (pool, leased lease) = (pool, granted lease)
  after_bound r failed (pool, refused e) =
      if is_busy e && is_hard r.affinity.mode
      then (pool, must_wait failed)
      else schedule r failed (
          if is_busy e
          then pool
          else record pool { affinity = Shard.forget d pool.affinity (cache_key r) })

  abbrev pub try_bound : Request → List String → Pool → Option String → Pool × Pass
  try_bound r failed pool none = schedule r failed pool
  try_bound r failed pool (some id) = after_bound r failed (
      if is_soft r.affinity.mode && not (account_request_usable now id pool)
      then (pool, refused account_busy)
      else acquire_id id r.model r.exclude pool)

  -- One turn of Acquire's loop.
  unfoldable pub acquire_pass : Request → List String → Pool → Pool × Pass
  unfolding schedule acquire_id account_request_usable
  acquire_pass r failed pool =
      let (cache, bound) = Shard.get d pool.affinity now (cache_key r) in
      if r.affinity.key == ""
      then schedule r failed pool
      else try_bound r failed (record pool { affinity = cache }) bound
