-- ===== src/Pool/Cooldown/Retry.antt =====
-- The retry time of `unavailable`: the earliest end among the cooldowns that keep enabled accounts
-- from the request.
use mathlib.Core.Bool.{false≢true}
use grokcli2api_go.Prelude.{
  ℕ, ◌-◌, ◌≤◌, ◌<◌, String, ◌≡◌, refl, sym, ◌∙◌, ◌⊎◌, inl, inr, Bool, true, false, not, ◌&&◌, List,
  [], ◌∷◌, arith, ltb, leb, eqb, any, Bool-cases, ◌+◌, Option, none, some, if◌then◌else◌, ◌==◌,
  ◌||◌,
}
use grokcli2api_go.Prelude.Map.{values, lookup}
use grokcli2api_go.Pool.{Account, CooldownState, Pool, unavailable}
use grokcli2api_go.Pool.Eligibility.{available, supports_model, cooling, has_model_if_any}
use grokcli2api_go.Pool.Cooldown.{until_of, running_until, earliest_end, unavailable_error}

module _ (now : ℕ) (model : String) (heap : ℕ → Account) where
  -- An enabled account whose cooldown for the model still runs, and one whose cooldown ends at `t`.
  abbrev pub is_waiting : ℕ → Bool
  is_waiting p = not (heap p).disabled && ltb now (running_until now model (heap p))

  abbrev pub waits_until : ℕ → ℕ → Bool
  waits_until t p = is_waiting p && eqb (running_until now model (heap p)) t

  abbrev pub waits_less : ℕ → ℕ → Bool
  waits_less t p = is_waiting p && ltb (running_until now model (heap p)) t

  earliest_end-mem :
      (e : ℕ) (ps : List ℕ) (r : ℕ)
      → earliest_end now model heap e ps ≡ r
      → (r ≡ e) ⊎ (any (waits_until r) ps ≡ true)
  unfolding earliest_end any
  earliest_end-mem e [] r h = ground arith
  earliest_end-mem e (p ∷ ps) r h =
      ground
        (arith, earliest_end-mem e ps r, earliest_end-mem (running_until now model (heap p)) ps r)

  earliest_end-least :
      (e : ℕ) (ps : List ℕ) (r : ℕ)
      → earliest_end now model heap e ps ≡ r
      → (any (waits_less r) ps ≡ false)
        × (0 < e → (0 < r) × (r ≤ e))
        × (r ≡ 0 → any is_waiting ps ≡ false)
  unfolding earliest_end any
  earliest_end-least e [] r h = ground arith
  earliest_end-least e (p ∷ ps) r h =
      ground (
        arith,
        earliest_end-least e ps r,
        earliest_end-least (running_until now model (heap p)) ps r,
      )

  waits_until-lt : (t : ℕ) (ps : List ℕ) → any (waits_until t) ps ≡ true → now < t
  unfolding any
  waits_until-lt t [] h = cc
  waits_until-lt t (p ∷ ps) h = ground (arith, waits_until-lt t ps)

positive_end : (r : ℕ) (b : Bool) → eqb r 0 ≡ false → (r ≡ 0) ⊎ (b ≡ true) → b ≡ true
positive_end r b n h = ground arith

cooling-until_of : (o : Option CooldownState) (now : ℕ) → cooling o now ≡ ltb now (until_of o)
cooling-until_of none now = ground arith
cooling-until_of (some c) now = refl

-- An account that a request for the model could use at `u`.
abbrev pub is_ready : String → ℕ → Account → Bool
is_ready model u a = available a u && supports_model a u model

-- The end of the cooldown of the model, where the account has the model.
abbrev pub model_end : String → Account → ℕ
model_end model a =
    if model == ""
    then 0
    else if has_model_if_any a a.credential model
    then until_of (lookup model a.model_cooldowns)
    else 0

-- At `t` the last of the cooldowns of an enabled account ends.
abbrev pub comes_free : String → ℕ → Account → Bool
comes_free model t a =
    not a.disabled
    && (leb a.cooldown_until t
        && (leb (model_end model a) t && (eqb a.cooldown_until t || eqb (model_end model a) t)))

ready_waits :
    (now u : ℕ) (model : String) (a : Account)
    → is_ready model now a ≡ false
    → is_ready model u a ≡ true
    → (not a.disabled
        && (ltb now (running_until now model a) && ltb (running_until now model a) (u + 1)))
      ≡ true
unfolding available supports_model running_until
ready_waits now u model a h k =
    let m = lookup model a.model_cooldowns in
    ground (arith, h, k, cooling-until_of m now, cooling-until_of m u)

waiting_comes_free :
    (now t : ℕ) (model : String) (a : Account)
    → (not a.disabled && (ltb now (running_until now model a) && eqb (running_until now model a) t))
      ≡ true
    → comes_free model t a ≡ true
unfolding running_until
waiting_comes_free now t model a h = ground (arith, h)

module _ (now : ℕ) (model : String) (heap : ℕ → Account) where
  any-waits_less :
      (u : ℕ) (ps : List ℕ)
      → any (λ p. is_ready model now (heap p)) ps ≡ false
      → any (λ p. is_ready model u (heap p)) ps ≡ true
      → any (waits_less now model heap (u + 1)) ps ≡ true
  unfolding any
  any-waits_less u [] h k = cc
  any-waits_less u (p ∷ ps) h k =
      ground (arith, h, k, any-waits_less u ps, ready_waits now u model (heap p))

  any-waits_less-le :
      (t r : ℕ) (ps : List ℕ)
      → t ≤ r
      → any (waits_less now model heap t) ps ≡ true
      → (any (waits_less now model heap r) ps ≡ true) × (any (is_waiting now model heap) ps ≡ true)
  unfolding any
  any-waits_less-le t r [] l h = cc
  any-waits_less-le t r (p ∷ ps) l h = ground (arith, l, h, any-waits_less-le t r ps)

  any-comes_free :
      (t : ℕ) (ps : List ℕ)
      → any (waits_until now model heap t) ps ≡ true
      → any (λ p. comes_free model t (heap p)) ps ≡ true
  unfolding any
  any-comes_free t [] h = cc
  any-comes_free t (p ∷ ps) h =
      ground (arith, h, any-comes_free t ps, waiting_comes_free now t model (heap p))

  -- No account is ready before the earliest end, or at all when there is none.
  none_ready :
      (u r : ℕ) (ps : List ℕ)
      → any (λ p. is_ready model now (heap p)) ps ≡ false
      → any (waits_less now model heap r) ps ≡ false
      → (r ≡ 0 → any (is_waiting now model heap) ps ≡ false)
      → (r ≡ 0) ⊎ (u < r)
      → any (λ p. is_ready model u (heap p)) ps ≡ false
  none_ready u r ps h less none_waits e =
      elim (Bool-cases (any (λ p. is_ready model u (heap p)) ps)) [
        | inr fine ↦ fine
        | inl bad ↦
            let later = any-waits_less u ps h bad in
            elim e [
              | inl z ↦ absurd (
                  false≢true (
                    sym (none_waits z)
                    ∙ (any-waits_less-le (u + 1) (u + 1) ps (omega arith) later).1))
              | inr l ↦ absurd (
                  false≢true
                    (sym less ∙ (any-waits_less-le (u + 1) r ps (omega (arith, l)) later).0))
            ]
      ]

-- Where no account of the pool is ready for the model at `now`: either the error names no cooldown, and
-- then none would be ready at any other time `u`, as the accounts are; or it names the time until `t`,
-- and then none would be ready at a time `u` before `t`, and at `t` the last cooldown of an enabled
-- account ends, whether it has the model or not.
pub unavailable_error_exact :
    (now u : ℕ) (model : String) (pool : Pool)
    → any (λ p. is_ready model now (pool.heap p)) (values pool.accounts) ≡ false
    → let ps = values pool.accounts in
      ((unavailable_error now model pool ≡ unavailable false 0)
        × (any (λ p. is_ready model u (pool.heap p)) ps ≡ false))
      ⊎ ((t : ℕ) × (now < t)
          × (unavailable_error now model pool ≡ unavailable true (t - now))
          × ((ltb u t && any (λ p. is_ready model u (pool.heap p)) ps) ≡ false)
          × (any (λ p. comes_free model t (pool.heap p)) ps ≡ true))
unfolding unavailable_error
unavailable_error_exact now u model pool h =
    let ps = values pool.accounts in
    let r = earliest_end now model pool.heap 0 ps in
    let least = earliest_end-least now model pool.heap 0 ps r refl in
    let quiet = none_ready now model pool.heap u r ps h least.0 least.2 in
    elim (Bool-cases (eqb r 0)) [
      | inl none_left ↦ inl (rw none_left refl, quiet (inl (ground (arith, none_left))))
      | inr later ↦
          let at =
            positive_end r (any (waits_until now model pool.heap r) ps) later
              (earliest_end-mem now model pool.heap 0 ps r refl) in
          inr (
            r,
            waits_until-lt now model pool.heap r ps at,
            rw later refl,
            elim (Bool-cases (ltb u r)) [
              | inr past ↦ rw past refl
              | inl soon ↦ rw (soon, quiet (inr (ground (arith, soon)))) refl
            ],
            any-comes_free now model pool.heap r ps at,
          )
    ]
