-- ===== src/Pool/Tests.antt =====
-- Runs of the pool on a small example.
mod Data
mod Accounts
mod Affinities
use grokcli2api_go.Prelude.{
  ◌↔◌, ℕ, suc, ◌+◌, ◌≤◌, ◌<◌, String, ◌≡◌, ◌≢◌, refl, Bool, true, false, Option, none, some, List,
  [], ◌∷◌, arith, eqb, ◌==◌, eq_iff, any, length, inl, inr, All, not, ◌&&◌, ◌||◌, has,
  if◌then◌else◌,
}
use grokcli2api_go.Prelude.Map.{found, lookup, Distinct, values}
use grokcli2api_go.Pool.{Pool, Affinity, Credential, affinity_soft, AffinityCache}
use grokcli2api_go.Pool.AffinityKeys.{
  affinity_model_key, affinity_model_key-namespace, affinity_model_key_injective, namespace,
  NulFree, ◌then_text◌, nul,
}
use grokcli2api_go.Pool.Eligibility.{has_model, supports_model, available, minute}
use grokcli2api_go.Pool.Shard
use grokcli2api_go.Pool.Shard.Bound
use grokcli2api_go.Pool.Shard.Reads
use grokcli2api_go.Pool.Snapshot.{rebuild_active, scheduling_snapshot}
use grokcli2api_go.Pool.Snapshot.Exact.{rebuild_active_exact}
use grokcli2api_go.Pool.Cooldown.{
  mark_cooldown, mark_model_cooldown, disable, extension_threshold, credential_fingerprint,
  or_no_state, unavailable_error,
}
use grokcli2api_go.Pool.Cooldown.Marks.{
  mark_cooldown_covers, mark_model_cooldown_covers, mark_model_cooldown_other, disable_excludes,
  disable_records,
}
use grokcli2api_go.Pool.Cooldown.Retry.{unavailable_error_exact}
use grokcli2api_go.Pool.Refresh.{
  refresh_failed, refresh_succeeded, refresh_if_unchanged, refresh_backoff,
}
use grokcli2api_go.Pool.Refresh.Failure.{refresh_failed_cools, failures_disable}
use grokcli2api_go.Pool.Refresh.Renewal.{refresh_if_unchanged_once}
use grokcli2api_go.Pool.Acquire.{
  acquire_pass, eligible, Choice, choose, choice_of, saturated_account,
}
use grokcli2api_go.Pool.Acquire.Best.{choose_best, choose-none, is_candidate, at_least}
use grokcli2api_go.Pool.Acquire.Load.Turn.{LoadOf, acquire_pass-LoadOf}
use grokcli2api_go.Pool.Backends.{accounts_for_backend, narrow}
use grokcli2api_go.Pool.Backends.Choices.{CanServe, narrow_exact}
use grokcli2api_go.Pool.Steps.{System, take_all, turn, release_lease, cool}
use grokcli2api_go.Pool.Steps.Counts.{IsAccounted}
use grokcli2api_go.Pool.Steps.Accounting.{take_all-IsAccounted}
use Data.{plain_digest, token, grok, account_a, account_b, two_accounts, request, renewing}

first_turn_example :
    LoadOf two_accounts (acquire_pass plain_digest renewing 5 request [] two_accounts)
first_turn_example = acquire_pass-LoadOf plain_digest renewing 5 request [] two_accounts

best_example :
    (c : Choice) × ((choose 5 "grok-4" [] [] two_accounts none false (0 ∷ 1 ∷ [])).0 ≡ some c)
    × (c ≡ choice_of 5 "grok-4" [] [] two_accounts c.pointer)
    × (any (λ p. eqb p c.pointer && is_candidate 5 "grok-4" [] [] two_accounts p) (0 ∷ 1 ∷ [])
        ≡ true)
    × All
        (λ p.
          (not (is_candidate 5 "grok-4" [] [] two_accounts p)
            || at_least (some c) (choice_of 5 "grok-4" [] [] two_accounts p))
          ≡ true)
        (0 ∷ 1 ∷ [])
unfolding any eligible available supports_model has_model has lookup
best_example = choose_best 5 "grok-4" [] [] two_accounts false (0 ∷ 1 ∷ []) refl

IsAccounted-start :
    IsAccounted 1
      (record { pool = two_accounts; leases = record { account = 1; is_metered = true } ∷ [] })
IsAccounted-start = record {
  same_limit = refl;
  counted = λ q. ground arith;
  limited = λ q l. ground arith;
}

IsAccounted-example : IsAccounted 1 (
    take_all plain_digest renewing
      (turn 5 request [] ∷ cool 6 "a" "rate_limit" 100 ∷ release_lease 1 ∷ [])
      (record { pool = two_accounts; leases = record { account = 1; is_metered = true } ∷ [] }))
IsAccounted-example =
    take_all-IsAccounted plain_digest renewing 1
      (turn 5 request [] ∷ cool 6 "a" "rate_limit" 100 ∷ release_lease 1 ∷ [])
      (record { pool = two_accounts; leases = record { account = 1; is_metered = true } ∷ [] })
      IsAccounted-start

snapshot_example : any (eqb 0) (scheduling_snapshot (rebuild_active 5 two_accounts) "grok-4") ≡ (
    any (eqb 0) (values two_accounts.accounts)
    && (available (two_accounts.heap 0) 5 && supports_model (two_accounts.heap 0) 5 "grok-4"))
snapshot_example = rebuild_active_exact 5 two_accounts 0 "grok-4" (tt, tt)

backend_example :
    (has "a"
        (narrow request
          (accounts_for_backend "grok-4" "responses" false two_accounts)
          two_accounts).exclude
      ≡ false)
    ↔ ((has "a" request.exclude ≡ false)
        × CanServe (two_accounts.heap 0) "grok-4" "responses" false)
unfolding lookup
backend_example = narrow_exact "a" 0 request "responses" false two_accounts (refl, (refl, tt)) refl
