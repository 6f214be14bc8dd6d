-- ===== src/Pool/Cooldown.antt =====
-- How accounts leave the schedule: MarkCooldown, MarkModelCooldown, Disable, and the errors of
-- unavailable and boundAccountUnavailable. Logging and the write of the state file are left out.
pub mod Marks
pub mod Retry
use grokcli2api_go.Prelude.{
  ℕ, ◌+◌, ◌-◌, ◌/◌, ◌*◌, String, Bool, true, false, not, ◌&&◌, ◌||◌, Option, none, some, List, [],
  ◌∷◌, ◌==◌, if◌then◌else◌, ltb, leb, eqb,
}
use grokcli2api_go.Prelude.Map.{Map, lookup, insert, values}
use grokcli2api_go.Pool.{
  Credential, CooldownState, Account, AccountState, Pool, Error, no_auth, unavailable, Digest,
}
use grokcli2api_go.Pool.Eligibility.{second, has_model_if_any}
use grokcli2api_go.Pool.Heap.{modify, request_rebuild, write}
use grokcli2api_go.Pool.AffinityKeys.{◌then_text◌, nul}

-- The zero value of accountState.
abbrev pub no_state : AccountState
no_state = record {
  cooldown_until = 0;
  reason = "";
  disabled = false;
  credential_fingerprint = "";
  model_cooldowns = [];
}

abbrev pub or_no_state : Option AccountState → AccountState
or_no_state none = no_state
or_no_state (some s) = s

abbrev pub until_of : Option CooldownState → ℕ
until_of none = 0
until_of (some c) = c.until

-- A cooldown is extended only by more than a tenth of what remains, and by more than five seconds.
unfoldable pub extension_threshold : ℕ → ℕ → ℕ
extension_threshold now until =
    let tenth = (until - now) / 10 in if ltb tenth (5 * second) then 5 * second else tenth

unfoldable pub cooldown_changes : ℕ → ℕ → ℕ → Bool
unfolding extension_threshold
cooldown_changes now old until = not (ltb now old) || ltb (old + extension_threshold now old) until

unfoldable pub mark_cooldown : ℕ → String → String → ℕ → Pool → Pool
unfolding request_rebuild write
mark_cooldown now id reason duration pool = elim (lookup id pool.accounts) [
  | none ↦ pool
  | some p ↦
      let until = now + duration in
      let state = or_no_state (lookup id pool.states) in
      let marked : Pool =
        modify pool p (λ a. record a { cooldown_until = until; cooldown_cause = reason }) in
      if cooldown_changes now (pool.heap p).cooldown_until until
      then request_rebuild (record marked {
        states = insert id (record state { cooldown_until = until; reason = reason }) pool.states;
        timers = until ∷ pool.timers;
      })
      else pool
]

unfoldable pub mark_model_cooldown : ℕ → String → String → String → ℕ → Pool → Pool
unfolding mark_cooldown
mark_model_cooldown now id model reason duration pool =
    if model == ""
    then mark_cooldown now id reason duration pool
    else elim (lookup id pool.accounts) [
      | none ↦ pool
      | some p ↦
          let until = now + duration in
          let mark : CooldownState = record { until = until; reason = reason } in
          let state = or_no_state (lookup id pool.states) in
          let marked : Pool =
            modify pool p
              (λ a. record a { model_cooldowns = insert model mark a.model_cooldowns }) in
          if cooldown_changes now (until_of (lookup model (pool.heap p).model_cooldowns)) until
          then request_rebuild (record marked {
            states =
                insert id
                  (record state { model_cooldowns = insert model mark state.model_cooldowns })
                  pool.states;
            timers = until ∷ pool.timers;
          })
          else pool
    ]

unfoldable pub credential_fingerprint : Digest → Option Credential → String
credential_fingerprint d none = ""
credential_fingerprint d (some c) = d.hex (c.access_token then_text nul then_text c.refresh_token)

unfoldable pub disable : Digest → String → String → Pool → Pool
unfolding request_rebuild write
disable d id reason pool = elim (lookup id pool.accounts) [
  | none ↦ pool
  | some p ↦
      let a = pool.heap p in
      let state = or_no_state (lookup id pool.states) in
      let marked : Pool =
        modify pool p (λ b. record b { disabled = true; disable_reason = reason }) in
      let recorded = record state {
        disabled = true;
        reason = reason;
        credential_fingerprint = credential_fingerprint d a.credential;
      } in
      if not a.disabled || not (a.disable_reason == reason)
      then request_rebuild (record marked { states = insert id recorded pool.states })
      else marked
]

-- The later of the two cooldowns of an account that are still running, and 0 when none is.
unfoldable pub running_until : ℕ → String → Account → ℕ
running_until now model a =
    let account_until = if ltb now a.cooldown_until then a.cooldown_until else 0 in
    let model_until = until_of (lookup model a.model_cooldowns) in
    if not (model == "")
      && (not a.disabled
          && (has_model_if_any a a.credential model
              && (ltb now model_until && ltb account_until model_until)))
    then model_until
    else account_until

-- The loop of `unavailable`: the earliest end of a cooldown, and 0 for the zero time.
unfoldable pub earliest_end : ℕ → String → (ℕ → Account) → ℕ → List ℕ → ℕ
unfolding running_until
earliest_end now model heap earliest [] = earliest
earliest_end now model heap earliest (p ∷ ps) =
    let until = running_until now model (heap p) in
    earliest_end now model heap
      (if not (heap p).disabled && (ltb now until && (eqb earliest 0 || ltb until earliest))
        then until
        else earliest)
      ps

unfoldable pub unavailable_error : ℕ → String → Pool → Error
unfolding earliest_end
unavailable_error now model pool =
    let earliest = earliest_end now model pool.heap 0 (values pool.accounts) in
    if eqb earliest 0 then unavailable false 0 else unavailable true (earliest - now)

unfoldable pub bound_account_unavailable : ℕ → String → String → Pool → Error
bound_account_unavailable now id model pool = elim (lookup id pool.accounts) [
  | none ↦ no_auth
  | some p ↦
      let a = pool.heap p in
      let model_until = until_of (lookup model a.model_cooldowns) in
      let until = if ltb a.cooldown_until model_until then model_until else a.cooldown_until in
      if a.disabled || not (has_model_if_any a a.credential model)
      then no_auth
      else if ltb now until
      then unavailable true (until - now)
      else no_auth
]
