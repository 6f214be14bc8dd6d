-- ===== src/Pool/Refresh/Failure.antt =====
-- Failed refreshes: the backoff, and that an identity provider that keeps failing disables an account.
use grokcli2api_go.Prelude.{
  ℕ, zero, suc, ◌-◌, ◌^◌, ◌+◌, ◌*◌, ◌≤◌, ◌<◌, ◌≡◌, refl, Bool, true, false, ◌||◌, none, some, List,
  [], ◌∷◌, arith, leb, length, Bool-cases, inl, inr,
}
use grokcli2api_go.Prelude.Map.{lookup}
use grokcli2api_go.Pool.{Credential, Pool, Digest}
use grokcli2api_go.Pool.Eligibility.{minute, available}
use grokcli2api_go.Pool.Cooldown.{mark_cooldown, disable, cooldown_changes, extension_threshold}
use grokcli2api_go.Pool.Refresh.{
  Outcome, failed, max_consecutive_refresh_failures, refresh_backoff, refresh_failed,
  refresh_credential,
}

-- The account under the identifier is the one that the pointer leads to.
abbrev pub IsNamed : Pool → ℕ → Type 0
IsNamed pool p = lookup (pool.heap p).id pool.accounts ≡ some p

-- No backoff is longer than a day, and the four of an account that keeps failing last a day together.
pub refresh_backoff_bounds :
    ((k : ℕ) → refresh_backoff k ≤ 24 * 60 * minute)
    × (refresh_backoff 1 + refresh_backoff 2 + refresh_backoff 3 + refresh_backoff 4
        ≡ 24 * 60 * minute)
unfolding refresh_backoff
refresh_backoff_bounds = (λ k. ground arith, refl)

power_pos : (n : ℕ) → 0 < 3 ^ n
power_pos zero = ground arith
power_pos (suc n) = ground (arith, power_pos n)

refresh_backoff_pos : (k : ℕ) → 0 < refresh_backoff k
unfolding refresh_backoff
refresh_backoff_pos k = ground (arith, power_pos (k - 1))

module _ (d : Digest) (now p : ℕ) (permanent : Bool) (pool : Pool) (named : IsNamed pool p) where
  abbrev failures : ℕ
  failures = (pool.heap p).refresh_fails + 1

  abbrev gives_up : Bool
  gives_up = permanent || leb max_consecutive_refresh_failures failures

  -- Each failure of an enabled account of the pool adds one to its count of failures, a permanent one
  -- too. It disables the account just if it is permanent or the fifth or a later one in a row, and in
  -- each case the account is not available then.
  pub refresh_failed_exact :
      (pool.heap p).disabled ≡ false
      → let a' = (refresh_failed d now p permanent pool).heap p in
        (a'.refresh_fails ≡ (pool.heap p).refresh_fails + 1)
        × (a'.disabled ≡ (permanent || leb 5 ((pool.heap p).refresh_fails + 1)))
        × (available a' now ≡ false)
  unfolding refresh_failed disable mark_cooldown cooldown_changes available
  refresh_failed_exact e = (
    ground (arith, named, e),
    ground (arith, named, e),
    ground (arith, named, e, refresh_backoff_pos failures),
  )

  -- A failure of an account of the pool that is not permanent and not the fifth or a later one in a row
  -- is counted and leaves the account enabled or not as
  -- it was, with its credential and with a cooldown that ends no earlier than before and covers the
  -- backoff up to the threshold below which an extension is not worth a write.
  pub refresh_failed_cools :
      gives_up ≡ false
      → let a = pool.heap p in
        let a' = (refresh_failed d now p permanent pool).heap p in
        (a'.refresh_fails ≡ failures)
        × (a'.credential ≡ a.credential)
        × (a'.disabled ≡ a.disabled)
        × (a.cooldown_until ≤ a'.cooldown_until)
        × (now + refresh_backoff failures
            ≤ a'.cooldown_until + extension_threshold now a.cooldown_until)
  unfolding refresh_failed disable mark_cooldown cooldown_changes
  refresh_failed_cools g = (
    ground (arith, named),
    ground (arith, named),
    ground (arith, named),
    ground (arith, named),
    ground (arith, named),
  )

-- An identity provider that answers every exchange with a transient error.
abbrev pub always_failing : Credential → Outcome
always_failing c = failed false

-- Forced refreshes at the given times.
pub refresh_at : Digest → ℕ → List ℕ → Pool → Pool
refresh_at d p [] pool = pool
refresh_at d p (t ∷ ts) pool =
    refresh_at d p ts (refresh_credential d always_failing t p true none pool).0

module _ (d : Digest) (t p : ℕ) (c : Credential) (pool : Pool) (named : IsNamed pool p)
    (held : (pool.heap p).credential ≡ some c) where
  abbrev after : Pool
  after = (refresh_credential d always_failing t p true none pool).0

  failing_step :
      IsNamed after p
      × ((after.heap p).credential ≡ some c)
      × ((pool.heap p).disabled ≡ true → (after.heap p).disabled ≡ true)
      × ((pool.heap p).disabled ≡ false
          → ((after.heap p).refresh_fails ≡ (pool.heap p).refresh_fails + 1)
            × (4 ≤ (pool.heap p).refresh_fails → (after.heap p).disabled ≡ true))
  unfolding refresh_credential disable mark_cooldown
  failing_step = (
    ground (arith, named, held),
    ground (arith, named, held),
    λ e. ground (arith, named, held),
    λ e. (ground (arith, named, held), λ h. ground (arith, named, held)),
  )

disabled_stays :
    (d : Digest) (p : ℕ) (c : Credential) (ts : List ℕ) (pool : Pool)
    → IsNamed pool p
    → (pool.heap p).credential ≡ some c
    → (pool.heap p).disabled ≡ true
    → ((refresh_at d p ts pool).heap p).disabled ≡ true
unfolding refresh_at
disabled_stays d p c [] pool n h e = e
disabled_stays d p c (t ∷ ts) pool n h e =
    let step = failing_step d t p c pool n h in
    disabled_stays d p c ts (after d t p c pool n h) step.0 step.1 (step.2 e)

-- However the forced refreshes are spread over time, an account of the pool with a credential,
-- whose failures in a row reach five with them, ends disabled.
pub failures_disable :
    (d : Digest) (p : ℕ) (c : Credential) (ts : List ℕ) (pool : Pool)
    → IsNamed pool p
    → (pool.heap p).credential ≡ some c
    → 0 < length ts
    → max_consecutive_refresh_failures ≤ (pool.heap p).refresh_fails + length ts
    → ((refresh_at d p ts pool).heap p).disabled ≡ true
unfolding refresh_at
failures_disable d p c [] pool n h some_left five = absurd (omega arith)
failures_disable d p c (t ∷ ts) pool n h some_left five =
    let step = failing_step d t p c pool n h in
    let next = after d t p c pool n h in
    elim (Bool-cases (pool.heap p).disabled) [
      | inl off ↦ disabled_stays d p c ts next step.0 step.1 (step.2 off)
      | inr on ↦ elim (Bool-cases (leb 4 (pool.heap p).refresh_fails)) [
        | inl last ↦
            disabled_stays d p c ts next step.0 step.1 ((step.3 on).1 (ground (arith, last)))
        | inr more ↦
            failures_disable d p c ts next step.0 step.1 (ground (arith, more))
              (omega (arith, (step.3 on).0))
      ]
    ]
