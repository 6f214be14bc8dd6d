-- ===== src/Pool/Acquire/Best.antt =====
-- The account that one batch selects: a candidate, at least as good as every other candidate.
use grokcli2api_go.Prelude.{
  ℕ, String, ◌≡◌, refl, ◌⊎◌, inl, inr, Bool, true, false, not, ◌&&◌, ◌||◌, Option, none, some, List,
  [], ◌∷◌, arith, if◌then◌else◌, leb, eqb, any, All, All-imp, Option-cases,
}
use grokcli2api_go.Prelude.Map.{found}
use grokcli2api_go.Pool.{Pool}
use grokcli2api_go.Pool.Acquire.{
  Choice, beats, same_bool, eligible, saturated_account, choice_of, choose,
}

-- `c` is usable at once if `s` is, and of two accounts alike in that it has no more requests.
abbrev pub at_least : Option Choice → Choice → Bool
at_least none s = false
at_least (some c) s =
    (c.is_usable && not s.is_usable)
    || (same_bool c.is_usable s.is_usable && leb c.inflight s.inflight)

module _ (now : ℕ) (model : String) (exclude failed : List String) (pool : Pool) where
  -- Eligible and below its limit.
  abbrev pub is_candidate : ℕ → Bool
  is_candidate p =
      eligible now model exclude failed pool p
      && not (saturated_account now model exclude failed pool p)

  abbrev choice : ℕ → Choice
  choice = choice_of now model exclude failed pool

  abbrev next : Option Choice → ℕ → Option Choice
  next o p =
      if eligible now model exclude failed pool p
        && (not (saturated_account now model exclude failed pool p) && beats (choice p) o)
      then some (choice p)
      else o

  next_keeps :
      (o : Option Choice) (p : ℕ) (s : Choice) → at_least o s ≡ true → at_least (next o p) s ≡ true
  next_keeps o p s h = ground arith

  next_takes :
      (o : Option Choice) (p : ℕ) → is_candidate p ≡ true → at_least (next o p) (choice p) ≡ true
  next_takes o p h = ground arith

  choose-at_least :
      (o : Option Choice) (full : Bool) (ps : List ℕ) (r : Option Choice)
      → (choose now model exclude failed pool o full ps).0 ≡ r
      → ((s : Choice) → at_least o s ≡ true → at_least r s ≡ true)
        × All (λ p. is_candidate p ≡ true → at_least r (choice p) ≡ true) ps
  unfolding choose
  choose-at_least o full [] r h = (λ s g. rw h at g, tt)
  choose-at_least o full (p ∷ ps) r h =
      let rest =
        choose-at_least (next o p)
          (full
            || (eligible now model exclude failed pool p
                && saturated_account now model exclude failed pool p))
          ps r h in
      (λ s g. rest.0 s (next_keeps o p s g), (λ c. rest.0 (choice p) (next_takes o p c), rest.1))

  choose-mem :
      (o : Option Choice) (full : Bool) (ps : List ℕ) (c : Choice)
      → (choose now model exclude failed pool o full ps).0 ≡ some c
      → (o ≡ some c)
        ⊎ ((c ≡ choice c.pointer) × (any (λ p. eqb p c.pointer && is_candidate p) ps ≡ true))
  unfolding choose any
  choose-mem o full [] c h = inl h
  choose-mem o full (p ∷ ps) c h = ground (
    arith,
    choose-mem (next o p)
        (full
          || (eligible now model exclude failed pool p
              && saturated_account now model exclude failed pool p))
        ps c h,
  )

  choose-saturated :
      (o : Option Choice) (full : Bool) (ps : List ℕ)
      → (choose now model exclude failed pool o full ps).1 ≡ (
          full
          || any
              (λ p.
                eligible now model exclude failed pool p
                && saturated_account now model exclude failed pool p)
              ps)
  unfolding choose any
  choose-saturated o full [] = ground arith
  choose-saturated o full (p ∷ ps) = ground (
    arith,
    choose-saturated (next o p)
        (full
          || (eligible now model exclude failed pool p
              && saturated_account now model exclude failed pool p))
        ps,
  )

  none_selected :
      (ps : List ℕ)
      → All (λ p. is_candidate p ≡ true → at_least none (choice p) ≡ true) ps
      → any is_candidate ps ≡ false
  unfolding any
  none_selected [] h = refl
  none_selected (p ∷ ps) h = ground (arith, h.0, none_selected ps h.1)

  any-weaken :
      (q : ℕ) (ps : List ℕ)
      → any (λ p. eqb p q && is_candidate p) ps ≡ true
      → any is_candidate ps ≡ true
  unfolding any
  any-weaken q [] h = h
  any-weaken q (p ∷ ps) h = ground (arith, any-weaken q ps)

  picked :
      (full : Bool) (ps : List ℕ) (c : Choice)
      → (choose now model exclude failed pool none full ps).0 ≡ some c
      → (c ≡ choice c.pointer) × (any (λ p. eqb p c.pointer && is_candidate p) ps ≡ true)
  picked full ps c e = elim (choose-mem none full ps c e) [
    | inl n ↦ absurd (ground (arith, n))
    | inr m ↦ m
  ]

  -- From a batch with a candidate one is selected, and no other candidate of the batch is better: one
  -- that needs no refresh goes before one that does, and then the one with fewer requests.
  pub choose_best :
      (full : Bool) (ps : List ℕ)
      → any is_candidate ps ≡ true
      → (c : Choice) × ((choose now model exclude failed pool none full ps).0 ≡ some c)
        × (c ≡ choice c.pointer)
        × (any (λ p. eqb p c.pointer && is_candidate p) ps ≡ true)
        × All (λ p. (not (is_candidate p) || at_least (some c) (choice p)) ≡ true) ps
  choose_best full ps h =
      let r = choose now model exclude failed pool none full ps in
      elim (Option-cases r.0) [
        | inl e ↦
            absurd (ground (arith, h, none_selected ps (choose-at_least none full ps none e).1))
        | inr (c, e) ↦
            let m = picked full ps c e in
            (
              c,
              e,
              m.0,
              m.1,
              All-imp (λ p g. ground (arith, g)) ps (choose-at_least none full ps (some c) e).1,
            )
      ]

  -- A batch selects none just when it has no candidate, and it raises the saturation flag just when one
  -- of its accounts is eligible and at its limit.
  pub choose-none :
      (full : Bool) (ps : List ℕ)
      → let r = choose now model exclude failed pool none full ps in
        (found r.0 ≡ any is_candidate ps)
        × (r.1 ≡ (
            full
            || any
                (λ p.
                  eligible now model exclude failed pool p
                  && saturated_account now model exclude failed pool p)
                ps))
  choose-none full ps =
      let r = choose now model exclude failed pool none full ps in
      elim (Option-cases r.0) [
        | inl e ↦ (
          ground (arith, e, none_selected ps (choose-at_least none full ps none e).1),
          choose-saturated none full ps,
        )
        | inr (c, e) ↦ (
          ground (arith, e, any-weaken c.pointer ps (picked full ps c e).1),
          choose-saturated none full ps,
        )
      ]
