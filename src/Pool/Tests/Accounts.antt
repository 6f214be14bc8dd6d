-- ===== src/Pool/Tests/Accounts.antt =====
-- Runs of cooldowns, disabled accounts and refreshes.
use grokcli2api_go.Prelude.{
  ◌&&◌, ◌||◌, ◌==◌, ltb, leb, eqb, if◌then◌else◌, ◌%◌, ◌^◌, ◌-◌, ◌⊎◌, ℕ, ◌+◌, ◌≤◌, ◌<◌, ◌≡◌, refl,
  true, false, none, some, [], ◌∷◌, arith, any,
}
use grokcli2api_go.Prelude.Text.{texts_differ}
use grokcli2api_go.Prelude.Map.{lookup}
use grokcli2api_go.Pool.{unavailable, Pool}
use grokcli2api_go.Pool.Eligibility.{supports_model, available, has_model}
use grokcli2api_go.Pool.Cooldown.{
  mark_cooldown, mark_model_cooldown, disable, extension_threshold, unavailable_error,
}
use grokcli2api_go.Pool.Cooldown.Marks.{
  mark_cooldown_covers, mark_model_cooldown_covers, disable_excludes,
}
use grokcli2api_go.Pool.Cooldown.Retry.{unavailable_error_exact, is_ready, comes_free}
use grokcli2api_go.Pool.Refresh.{
  refresh_failed, refresh_succeeded, refresh_if_unchanged, refresh_backoff,
}
use grokcli2api_go.Pool.Refresh.Failure.{
  refresh_failed_exact, refresh_failed_cools, failures_disable, refresh_at,
}
use grokcli2api_go.Pool.Refresh.Renewal.{refresh_succeeded_renews, refresh_if_unchanged_once}
use grokcli2api_go.Pool.Tests.Data.{
  plain_digest, token, account_a, account_b, two_accounts, renewing,
}

cooldown_example :
    (0 ≤ ((mark_cooldown 5 "a" "rate_limit" 100 two_accounts).heap 0).cooldown_until)
    × (5 + 100
        ≤ ((mark_cooldown 5 "a" "rate_limit" 100 two_accounts).heap 0).cooldown_until
          + extension_threshold 5 0)
    × ((mark_cooldown 5 "a" "rate_limit" 100 two_accounts).heap 1 ≡ account_b)
unfolding lookup
cooldown_example = mark_cooldown_covers 5 "a" "rate_limit" 100 two_accounts 0 refl 1 (ground arith)

model_cooldown_example :
    supports_model
      ((mark_model_cooldown 5 "a" "grok-4" "quota" 900000000000 two_accounts).heap 0)
      6
      "grok-4"
    ≡ false
unfolding lookup extension_threshold
model_cooldown_example =
    mark_model_cooldown_covers 5 "a" "grok-4" "quota" 900000000000 two_accounts 0 refl
      (texts_differ "grok-4" "" refl) 6 (ground arith)

disable_example :
    (available ((disable plain_digest "a" "banned" two_accounts).heap 0) 9 ≡ false)
    × (supports_model ((disable plain_digest "a" "banned" two_accounts).heap 0) 9 "grok-4" ≡ false)
    × ((disable plain_digest "a" "banned" two_accounts).heap 1 ≡ account_b)
unfolding lookup
disable_example =
    disable_excludes plain_digest "a" "banned" two_accounts 0 refl 9 1 "grok-4"
      (texts_differ "grok-4" "" refl) (ground arith)

-- One account cools until 50, and the model of the other until 80.
abbrev waiting_pool : Pool
waiting_pool = record two_accounts {
  heap = λ p.
      if eqb p 1
      then record account_b {
        model_cooldowns = ("grok-4", record { until = 80; reason = "quota" }) ∷ [];
      }
      else record account_a { cooldown_until = 50; cooldown_cause = "rate_limit" };
}

unavailable_example :
    ((unavailable_error 5 "grok-4" waiting_pool ≡ unavailable false 0)
      × (any (λ p. is_ready "grok-4" 40 (waiting_pool.heap p)) (0 ∷ 1 ∷ []) ≡ false))
    ⊎ ((t : ℕ) × (5 < t)
        × (unavailable_error 5 "grok-4" waiting_pool ≡ unavailable true (t - 5))
        × ((ltb 40 t && any (λ p. is_ready "grok-4" 40 (waiting_pool.heap p)) (0 ∷ 1 ∷ [])) ≡ false)
        × (any (λ p. comes_free "grok-4" t (waiting_pool.heap p)) (0 ∷ 1 ∷ []) ≡ true))
unfolding any available supports_model has_model lookup
unavailable_example = unavailable_error_exact 5 40 "grok-4" waiting_pool refl

permanent_example :
    (((refresh_failed plain_digest 5 0 true two_accounts).heap 0).refresh_fails ≡ 0 + 1)
    × (((refresh_failed plain_digest 5 0 true two_accounts).heap 0).disabled
        ≡ (true || leb 5 (0 + 1)))
    × (available ((refresh_failed plain_digest 5 0 true two_accounts).heap 0) 5 ≡ false)
unfolding lookup
permanent_example = refresh_failed_exact plain_digest 5 0 true two_accounts refl refl

backoff_example :
    (((refresh_failed plain_digest 5 0 false two_accounts).heap 0).refresh_fails ≡ 1)
    × (((refresh_failed plain_digest 5 0 false two_accounts).heap 0).credential ≡ some token)
    × (((refresh_failed plain_digest 5 0 false two_accounts).heap 0).disabled ≡ false)
    × (0 ≤ ((refresh_failed plain_digest 5 0 false two_accounts).heap 0).cooldown_until)
    × (5 + refresh_backoff 1
        ≤ ((refresh_failed plain_digest 5 0 false two_accounts).heap 0).cooldown_until
          + extension_threshold 5 0)
unfolding lookup
backoff_example = refresh_failed_cools plain_digest 5 0 false two_accounts refl refl

five_failures_example :
    ((refresh_at plain_digest 0 (10 ∷ 20 ∷ 30 ∷ 40 ∷ 50 ∷ []) two_accounts).heap 0).disabled ≡ true
unfolding lookup
five_failures_example =
    failures_disable plain_digest 0 token (10 ∷ 20 ∷ 30 ∷ 40 ∷ 50 ∷ []) two_accounts refl refl
      (ground arith) (ground arith)

-- An upstream answer cools the account of the pool, and its token is renewed.
abbrev cooling_pool : Pool
cooling_pool = record two_accounts {
  heap = λ p. record account_a { cooldown_until = 50; cooldown_cause = "rate_limit" };
}

renewal_example :
    ((refresh_succeeded 5 0 token cooling_pool).1 ≡ none)
    × (((refresh_succeeded 5 0 token cooling_pool).0.heap 0).refresh_fails ≡ 0)
    × (((refresh_succeeded 5 0 token cooling_pool).0.heap 0).generation ≡ (1 + 1) % 2 ^ 64)
    × (available ((refresh_succeeded 5 0 token cooling_pool).0.heap 0) 20
        ≡ (leb 50 20 || ("rate_limit" == "" || "rate_limit" == "refresh_backoff")))
renewal_example = refresh_succeeded_renews 5 0 token cooling_pool 20 refl (ground arith)

abbrev refreshed : Pool
refreshed = (refresh_if_unchanged plain_digest renewing 5 "a" 1 two_accounts).0

once_example :
    ((refresh_if_unchanged plain_digest renewing 7 "a" 1 refreshed).1 ≡ none)
    × ((refresh_if_unchanged plain_digest renewing 7 "a" 1 refreshed).0.states ≡ refreshed.states)
    × ((q : ℕ)
        → (refresh_if_unchanged plain_digest renewing 7 "a" 1 refreshed).0.heap q
          ≡ refreshed.heap q)
unfolding lookup refresh_if_unchanged
once_example =
    refresh_if_unchanged_once plain_digest renewing 5 1 "a" two_accounts 0 refl token token renewing
      7 refl refl refl (ground arith) (ground arith) refl
