-- ===== src/Pool/Refresh/Renewal.antt =====
-- Successful refreshes: what they restore, what they leave, and that they are not repeated.
use grokcli2api_go.Prelude.{
  ℕ, ◌+◌, ◌%◌, ◌^◌, ◌<◌, ◌≤◌, ◌||◌, ◌==◌, leb, String, ◌≡◌, ◌≢◌, false, none, some, arith,
}
use grokcli2api_go.Prelude.Map.{lookup}
use grokcli2api_go.Pool.{Credential, Pool, Digest}
use grokcli2api_go.Pool.Eligibility.{available}
use grokcli2api_go.Pool.Refresh.{
  Outcome, renewed, refresh_succeeded, refresh_if_unchanged, keeps_cooldown,
}

module _ (now p : ℕ) (next : Credential) (pool : Pool) where
  -- A refresh that succeeds, of an account that is not being deleted, resets the count of failures,
  -- enables the account and takes the next generation. At every time `u` from then on the account is
  -- available, unless a cooldown from before still runs at `u` whose cause is neither missing nor
  -- "refresh_backoff".
  pub refresh_succeeded_renews :
      (u : ℕ)
      → (pool.heap p).deleting ≡ false
      → now ≤ u
      → let a = pool.heap p in
        let result = refresh_succeeded now p next pool in
        let a' = result.0.heap p in
        (result.1 ≡ none)
        × (a'.refresh_fails ≡ 0)
        × (a'.generation ≡ (a.generation + 1) % 2 ^ 64)
        × (available a' u ≡ (
            leb a.cooldown_until u
            || (a.cooldown_cause == "" || a.cooldown_cause == "refresh_backoff")))
  unfolding refresh_succeeded available keeps_cooldown
  refresh_succeeded_renews u e l = (ground arith, ground arith, ground arith, ground (arith, e, l))

-- A refresh for a generation that is past changes no account and reports success.
past_generation :
    (d : Digest) (idp : Credential → Outcome) (now g : ℕ) (id : String) (pool : Pool) (p : ℕ)
    → lookup id pool.accounts ≡ some p
    → 0 < (pool.heap p).generation
    → (pool.heap p).generation ≢ g
    → let again = refresh_if_unchanged d idp now id g pool in
      (again.1 ≡ none) × (again.0.states ≡ pool.states) × ((q : ℕ) → again.0.heap q ≡ pool.heap q)
unfolding refresh_if_unchanged
past_generation d idp now g id pool p k pos n =
    (ground (arith, k), ground (arith, k), λ q. ground (arith, k))

module _ (d : Digest) (idp : Credential → Outcome) (now g : ℕ) (id : String) (pool : Pool) (p : ℕ)
    (known : lookup id pool.accounts ≡ some p) where
  first_refresh :
      (c next : Credential)
      → (pool.heap p).credential ≡ some c
      → idp c ≡ renewed next
      → (pool.heap p).generation ≡ g
      → 0 < g
      → let first = refresh_if_unchanged d idp now id g pool in
        first.1 ≡ none
        → (lookup id first.0.accounts ≡ some p) × ((first.0.heap p).generation ≡ (g + 1) % 2 ^ 64)
  unfolding refresh_if_unchanged
  first_refresh c next h ok same pos done = (ground (arith, known), ground (arith, known))

  -- Requests that fail with the same generation refresh once: after a refresh of an account of the
  -- pool that succeeded, another for the generation that was observed before it (not 0, and below
  -- 2^64 - 1) reports success and changes no account and no recorded state, whatever the identity
  -- provider would have answered.
  pub refresh_if_unchanged_once :
      (c next : Credential) (idp' : Credential → Outcome) (later : ℕ)
      → (pool.heap p).credential ≡ some c
      → idp c ≡ renewed next
      → (pool.heap p).generation ≡ g
      → 0 < g
      → g + 1 < 2 ^ 64
      → (refresh_if_unchanged d idp now id g pool).1 ≡ none
      → let first = refresh_if_unchanged d idp now id g pool in
        let again = refresh_if_unchanged d idp' later id g first.0 in
        (again.1 ≡ none)
        × (again.0.states ≡ first.0.states)
        × ((q : ℕ) → again.0.heap q ≡ first.0.heap q)
  refresh_if_unchanged_once c next idp' later h ok same pos bound done =
      let first = first_refresh c next h ok same pos done in
      past_generation d idp' later g id (refresh_if_unchanged d idp now id g pool).0 p first.0
        (omega (arith, first.1)) (omega (arith, first.1))
