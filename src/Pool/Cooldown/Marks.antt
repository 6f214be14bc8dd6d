-- ===== src/Pool/Cooldown/Marks.antt =====
-- What a mark does: cooldowns never end earlier than before, they are written to the state that
-- outlives the process, and a disabled account takes no request.
use grokcli2api_go.Prelude.{
  ℕ, ◌+◌, ◌≤◌, ◌<◌, String, ◌≡◌, ◌≢◌, ◌⊎◌, refl, true, false, some, arith, eq_iff, if◌then◌else◌,
  Bool-cases, inl, inr,
}
use grokcli2api_go.Prelude.Map.{lookup, insert, lookup-insert, lookup-insert_self}
use grokcli2api_go.Pool.{Account, Pool, Digest}
use grokcli2api_go.Pool.Eligibility.{available, supports_model}
use grokcli2api_go.Pool.Cooldown.{
  mark_cooldown, mark_model_cooldown, disable, extension_threshold, cooldown_changes, or_no_state,
  until_of, credential_fingerprint,
}

module _ (now : ℕ) (id reason : String) (duration : ℕ) (pool : Pool) (p : ℕ)
    (known : lookup id pool.accounts ≡ some p) where
  -- A mark of an account of the pool never shortens its cooldown, and it covers the marked time up
  -- to the threshold below which an extension is not worth a write; it changes no other account.
  pub mark_cooldown_covers :
      (q : ℕ)
      → q ≢ p
      → let old = (pool.heap p).cooldown_until in
        let new = ((mark_cooldown now id reason duration pool).heap p).cooldown_until in
        (old ≤ new)
        × (now + duration ≤ new + extension_threshold now old)
        × ((mark_cooldown now id reason duration pool).heap q ≡ pool.heap q)
  unfolding mark_cooldown cooldown_changes
  mark_cooldown_covers q n = (
    rw (known, mark_cooldown) (ground arith),
    rw (known, mark_cooldown) (ground arith),
    rw (known, mark_cooldown) (ground arith),
  )

-- One account with a mark on one model.
abbrev with_mark : Account → String → ℕ → String → Account
with_mark a model until reason = record a {
  model_cooldowns = insert model (record { until = until; reason = reason }) a.model_cooldowns;
}

with_mark_cools :
    (a : Account) (model reason : String) (until t : ℕ)
    → model ≢ ""
    → t < until
    → supports_model (with_mark a model until reason) t model ≡ false
unfolding supports_model
with_mark_cools a model reason until t n h = ground (
  arith,
  eq_iff model "",
  lookup-insert_self model (record { until = until; reason = reason }) a.model_cooldowns,
)

with_mark_other :
    (a : Account) (model other reason : String) (until t : ℕ)
    → other ≢ model
    → supports_model (with_mark a model until reason) t other ≡ supports_model a t other
unfolding supports_model
with_mark_other a model other reason until t n = ground (
  arith,
  eq_iff model other,
  lookup-insert model other (record { until = until; reason = reason }) a.model_cooldowns,
)

cooling_account :
    (a : Account) (model : String) (t : ℕ)
    → model ≢ ""
    → t < until_of (lookup model a.model_cooldowns)
    → supports_model a t model ≡ false
unfolding supports_model
cooling_account a model t n h = ground (arith, eq_iff model "")

module _ (now : ℕ) (id model reason : String) (duration : ℕ) (pool : Pool) (p : ℕ)
    (known : lookup id pool.accounts ≡ some p) (named : model ≢ "") where
  abbrev marked : Pool
  marked = mark_model_cooldown now id model reason duration pool

  abbrev old_end : ℕ
  old_end = until_of (lookup model (pool.heap p).model_cooldowns)

  marked_account : marked.heap p ≡ (
      if cooldown_changes now old_end (now + duration)
      then with_mark (pool.heap p) model (now + duration) reason
      else pool.heap p)
  unfolding mark_model_cooldown
  marked_account = ground (arith, known, eq_iff model "")

  changes_cases :
      (t : ℕ)
      → t + extension_threshold now old_end < now + duration
      → (cooldown_changes now old_end (now + duration) ≡ true) ⊎ (t < old_end)
  unfolding cooldown_changes
  changes_cases t h = ground arith

  -- A mark of one model on an account of the pool keeps the account from requests for it until the
  -- marked time, up to the threshold below which an extension is not worth a write.
  pub mark_model_cooldown_covers :
      (t : ℕ)
      → t + extension_threshold now old_end < now + duration
      → supports_model (marked.heap p) t model ≡ false
  mark_model_cooldown_covers t h = elim (changes_cases t h) [
    | inl c ↦
        rw (marked_account, c)
          (with_mark_cools (pool.heap p) model reason (now + duration) t named (omega arith))
    | inr running ↦
        rw marked_account (elim (Bool-cases (cooldown_changes now old_end (now + duration))) [
          | inl c ↦
              rw c
                (with_mark_cools (pool.heap p) model reason (now + duration) t named (omega arith))
          | inr c ↦ rw c (cooling_account (pool.heap p) model t named running)
        ])
  ]

  -- A mark of one model on an account of the pool leaves requests for other models, and the
  -- account's own availability, as they were.
  pub mark_model_cooldown_other :
      (t : ℕ) (other : String)
      → other ≢ model
      → (supports_model (marked.heap p) t other ≡ supports_model (pool.heap p) t other)
        × (available (marked.heap p) t ≡ available (pool.heap p) t)
  unfolding available
  mark_model_cooldown_other t other n = (
    rw marked_account (elim (Bool-cases (cooldown_changes now old_end (now + duration))) [
      | inl c ↦ rw c (with_mark_other (pool.heap p) model other reason (now + duration) t n)
      | inr c ↦ rw c
    ]),
    rw marked_account (ground arith),
  )

module _ (d : Digest) (id reason : String) (pool : Pool) (p : ℕ)
    (known : lookup id pool.accounts ≡ some p) where
  -- After Disable, an account of the pool is not available and takes no request for a model, at any
  -- time, and the other accounts are as before.
  pub disable_excludes :
      (t q : ℕ) (model : String)
      → model ≢ ""
      → q ≢ p
      → let after = disable d id reason pool in
        (available (after.heap p) t ≡ false)
        × (supports_model (after.heap p) t model ≡ false)
        × (after.heap q ≡ pool.heap q)
  unfolding disable available supports_model
  disable_excludes t q model m n =
      (ground (arith, known), ground (arith, known, eq_iff model ""), ground (arith, known))

  -- A first disabling of an account of the pool is recorded for the next start, with the
  -- fingerprint of the account's credential.
  pub disable_records :
      (pool.heap p).disabled ≡ false
      → let state = or_no_state (lookup id (disable d id reason pool).states) in
        (state.disabled ≡ true)
        × (state.credential_fingerprint ≡ credential_fingerprint d (pool.heap p).credential)
  unfolding disable
  disable_records e = rw (known, disable) (rw e (rw lookup-insert_self (refl, refl)))
