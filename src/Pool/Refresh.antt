-- ===== src/Pool/Refresh.antt =====
-- refreshCredential and its callers. The OAuth exchange, the locks and the file are the environment:
-- `idp` gives what `credential.refresh` returns. The cache of file contents is not modelled.
pub mod Failure
pub mod Renewal
use grokcli2api_go.Prelude.{
  ℕ, ◌+◌, ◌-◌, ◌/◌, ◌*◌, ◌%◌, ◌^◌, String, Bool, true, false, not, ◌&&◌, ◌||◌, Option, none, some,
  List, [], ◌∷◌, ◌==◌, if◌then◌else◌, ltb, leb, eqb, is_nil, any,
}
use grokcli2api_go.Prelude.Map.{Map, lookup, insert, remove, values}
use grokcli2api_go.Pool.{
  Credential, CooldownState, Account, AccountState, CatalogState, Pool, Error, no_auth, canceled,
  refresh_error, Digest,
}
use grokcli2api_go.Pool.Eligibility.{
  second, minute, usable, usable_if_any, needs_refresh, deterministic_jitter,
}
use grokcli2api_go.Pool.Heap.{modify, request_rebuild, notify_capacity, write, settle_generation}
use grokcli2api_go.Pool.Cooldown.{mark_cooldown, disable, or_no_state}

-- What a refresh can come back with; `abandoned` stands for an ended context.
pub data Outcome : Type 0 where
  renewed : Credential → Outcome
  failed : Bool → Outcome
  abandoned : Outcome

abbrev pub max_consecutive_refresh_failures : ℕ
max_consecutive_refresh_failures = 5

-- 36, 108, 324, 972 minutes, and never more than a day.
unfoldable pub refresh_backoff : ℕ → ℕ
refresh_backoff failures =
    let backoff = 36 * 3 ^ (failures - 1) * minute in
    if ltb (24 * 60 * minute) backoff then 24 * 60 * minute else backoff

unfoldable pub with_provisional_models : Credential → Option CatalogState → Credential
with_provisional_models c none = c
with_provisional_models c (some catalog) =
    if not (is_nil catalog.models) || (not (is_nil c.models) || is_nil catalog.provisional)
    then c
    else record c { models = catalog.provisional; models_updated_at = catalog.updated_at }

-- A cooldown that was not set by a failed refresh outlives the refresh.
unfoldable pub keeps_cooldown : ℕ → Account → Bool
keeps_cooldown now a =
    ltb now a.cooldown_until
    && (not (a.cooldown_cause == "") && not (a.cooldown_cause == "refresh_backoff"))

unfoldable pub has_model_cooldown : ℕ → Account → Bool
has_model_cooldown now a = any (λ c. ltb now c.until) (values a.model_cooldowns)

unfoldable pub renew_account : ℕ → Credential → Account → Account
unfolding keeps_cooldown
renew_account now next a = record a {
  credential = some next;
  generation = (a.generation + 1) % 2 ^ 64;
  disabled = false;
  disable_reason = "";
  cooldown_until = if keeps_cooldown now a then a.cooldown_until else 0;
  cooldown_cause = if keeps_cooldown now a then a.cooldown_cause else "";
}

unfoldable pub clear_state : ℕ → Account → String → Map AccountState → Map AccountState
unfolding keeps_cooldown has_model_cooldown
clear_state now a id states =
    if keeps_cooldown now a
    then states
    else if has_model_cooldown now a
    then insert id (record (or_no_state (lookup id states)) { cooldown_until = 0; reason = "" })
        states
    else remove id states

-- After an error of the exchange.
unfoldable pub refresh_failed : Digest → ℕ → ℕ → Bool → Pool → Pool
unfolding refresh_backoff write
refresh_failed d now p permanent pool =
    let failures = (pool.heap p).refresh_fails + 1 in
    let id = (pool.heap p).id in
    let counted : Pool = modify pool p (λ a. record a { refresh_fails = failures }) in
    if permanent
    then disable d id "refresh_invalid" counted
    else if leb max_consecutive_refresh_failures failures
    then disable d id "refresh_exhausted" counted
    else mark_cooldown now id "refresh_backoff" (refresh_backoff failures) counted

-- After the exchange succeeded.
unfoldable pub refresh_succeeded : ℕ → ℕ → Credential → Pool → Pool × Option Error
unfolding write with_provisional_models renew_account clear_state request_rebuild notify_capacity
refresh_succeeded now p next pool =
    let cleared : Pool = modify pool p (λ a. record a { refresh_fails = 0 }) in
    let a = cleared.heap p in
    let adopted = with_provisional_models next (lookup a.id pool.catalogs) in
    let renewed_pool : Pool = modify cleared p (renew_account now adopted) in
    if a.deleting then (cleared, some no_auth) else (
      notify_capacity (
          request_rebuild
            (record renewed_pool { states = clear_state now a a.id renewed_pool.states })),
      none,
    )

abbrev pub finish_refresh : Digest → ℕ → ℕ → Outcome → Pool → Pool × Option Error
finish_refresh d now p (renewed next) pool = refresh_succeeded now p next pool
finish_refresh d now p (failed permanent) pool =
    (refresh_failed d now p permanent pool, some refresh_error)
finish_refresh d now p abandoned pool = (pool, some canceled)

-- The part of refreshCredential that needs a credential.
abbrev pub exchange :
    Digest → (Credential → Outcome) → ℕ → ℕ → Bool → Option Credential → Pool → Pool × Option Error
exchange d idp now p force none pool = (pool, some no_auth)
exchange d idp now p force (some c) pool =
    if (pool.heap p).disabled
    then (pool, some no_auth)
    else if not force && not (needs_refresh c now (deterministic_jitter d (pool.heap p).id))
    then (pool, none)
    else finish_refresh d now p (idp c) pool

unfoldable pub refresh_credential :
    Digest → (Credential → Outcome) → ℕ → ℕ → Bool → Option ℕ → Pool → Pool × Option Error
unfolding refresh_failed refresh_succeeded settle_generation write
refresh_credential d idp now p force none pool =
    exchange d idp now p force (pool.heap p).credential pool
refresh_credential d idp now p force (some observed) pool =
    let settled : Pool = modify pool p settle_generation in
    if eqb (settled.heap p).generation observed
    then exchange d idp now p force (settled.heap p).credential settled
    else (settled, none)

unfoldable pub ensure_usable : Digest → (Credential → Outcome) → ℕ → ℕ → Pool → Pool × Option Error
unfolding refresh_credential
ensure_usable d idp now p pool =
    if (pool.heap p).disabled then (pool, some no_auth) else elim (pool.heap p).credential [
      | none ↦ (pool, some no_auth)
      | some c ↦
          let refreshed = refresh_credential d idp now p false none pool in
          if usable c now then (pool, none) else refreshed
    ]

-- RefreshIfUnchanged
unfoldable pub refresh_if_unchanged :
    Digest → (Credential → Outcome) → ℕ → String → ℕ → Pool → Pool × Option Error
unfolding refresh_credential
refresh_if_unchanged d idp now id observed pool = elim (lookup id pool.accounts) [
  | none ↦ (pool, some no_auth)
  | some p ↦ refresh_credential d idp now p true (some observed) pool
]
