-- ===== src/Anthropic/Stops/Held.antt =====
-- What Push holds back is long enough: no longer end of the text could begin a sequence.
use grokcli2api_go.Prelude.{
  ℕ, zero, suc, ◌≤◌, ◌<◌, ◌≡◌, sym, subst, true, false, none, List, [], ◌∷◌, ◌++◌, arith, ltb, leb,
  length, length-append, Bool-cases, inl, inr, All,
}
use mathlib.Core.List.{append_assoc}
use grokcli2api_go.Anthropic.Stops.{
  Text, take, begins, ends, index_of, hold_for, hold_all, size_limit,
}
use grokcli2api_go.Anthropic.Stops.Search.{
  apart, apart-append, begins-take, begins-whole, ends-suffix, index_of-tail, index_of-begins,
}

hold_for-le : (s t : Text) (h n : ℕ) → h ≤ hold_for s t h n
unfolding hold_for
hold_for-le s t h zero = omega arith
hold_for-le s t h (suc n) = ground (arith, hold_for-le s t h n)

-- No size above the result, up to the limit, fits.
hold_for-max : (s t : Text) (h n l : ℕ) → hold_for s t h n < l → l ≤ n → ends t (take l s) ≡ false
unfolding hold_for
hold_for-max s t h zero l above le = absurd (omega (arith, above, le))
hold_for-max s t h (suc n) l above le = elim (Bool-cases (ltb h (suc n))) [
  | inr stop ↦ absurd (ground (arith, above, le, stop))
  | inl more ↦ elim (Bool-cases (ends t (take (suc n) s))) [
    | inl fits ↦ absurd (ground (arith, above, le, more, fits))
    | inr misses ↦ elim (Bool-cases (leb l n)) [
      | inl smaller ↦
          hold_for-max s t h n l (ground (arith, above, more, misses)) (ground (arith, smaller))
      | inr last ↦
          subst (λ k. ends t (take k s) ≡ false) {x = suc n} {y = l} (ground (arith, le, last))
            misses
    ]
  ]
]

hold_all-le : (ss : List Text) (t : Text) (h : ℕ) → h ≤ hold_all ss t h
unfolding hold_all
hold_all-le [] t h = omega arith
hold_all-le (s ∷ ss) t h =
    omega (
      arith,
      hold_for-le s t h (size_limit s t),
      hold_all-le ss t (hold_for s t h (size_limit s t)),
    )

-- No end of the text that is longer than what is held back, and shorter than a sequence, begins it.
abbrev pub Misses : Text → ℕ → Text → Type 0
Misses t k s = (l : ℕ) → k < l → l ≤ size_limit s t → ends t (take l s) ≡ false

pub hold_all-max : (ss : List Text) (t : Text) (h : ℕ) → All (Misses t (hold_all ss t h)) ss
unfolding hold_all
hold_all-max [] t h = tt
hold_all-max (s ∷ ss) t h =
    let first = hold_for s t h (size_limit s t) in
    (
      λ l above le.
          hold_for-max s t h (size_limit s t) l (omega (arith, above, hold_all-le ss t first)) le,
      hold_all-max ss t first,
    )

-- Every longer end of the emitted and the held text is apart from the sequence.
abbrev pub Cut : Text → Text → Text → Type 0
Cut s [] p = Unit
Cut s (c ∷ e) p = (apart s (c ∷ e ++ p) ≡ true) × Cut s e p

-- A text u at the end that is longer than what is held back is apart from the sequence.
suffix-apart :
    (s x u : Text) (k : ℕ)
    → Misses (x ++ u) k s
    → k < length u
    → begins s u ≡ false
    → apart s u ≡ true
suffix-apart s x u k m l b = elim (Bool-cases (begins u s)) [
  | inr c ↦ ground (arith, b, c)
  | inl c ↦
      let took = begins-take u s c in
      elim (Bool-cases (leb (length s) (length u))) [
        | inl whole ↦ absurd (ground (arith, b, begins-whole u s c (ground (arith, whole, took.1))))
        | inr short ↦ absurd (
            ground (
              arith,
              ends-suffix x u,
              subst (λ (w : Text). ends (x ++ u) w ≡ false) took.0
                  (m (length u) l (ground (arith, short, length-append x u))),
            ))
      ]
]

pub Cut-suffix :
    (s x e p : Text) → Misses (x ++ (e ++ p)) (length p) s → index_of s (e ++ p) ≡ none → Cut s e p
Cut-suffix s x [] p m h = tt
Cut-suffix s x (c ∷ e) p m h = (
  suffix-apart s x (c ∷ e ++ p) (length p) m (omega (arith, length-append e p))
      (index_of-begins s (c ∷ e ++ p) h),
  Cut-suffix s (x ++ c ∷ []) e p
      (subst (λ (w : Text). Misses w (length p) s) (sym (append_assoc x (c ∷ []) (e ++ p))) m)
      (index_of-tail s c (e ++ p) h),
)

hold_for-bound : (s t : Text) (h n k : ℕ) → h ≤ k → n ≤ k → hold_for s t h n ≤ k
unfolding hold_for
hold_for-bound s t h zero k a b = a
hold_for-bound s t h (suc n) k a b =
    ground (arith, a, b, hold_for-bound s t h n k a (omega (arith, b)))

pub hold_all-bound : (ss : List Text) (t : Text) (h : ℕ) → h ≤ length t → hold_all ss t h ≤ length t
unfolding hold_all
hold_all-bound [] t h a = a
hold_all-bound (s ∷ ss) t h a =
    hold_all-bound ss t (hold_for s t h (size_limit s t))
      (hold_for-bound s t h (size_limit s t) (length t) a (ground arith))

pub Cut-append : (s e p v : Text) → Cut s e p → Cut s e (p ++ v)
Cut-append s [] p v h = tt
Cut-append s (c ∷ e) p v h = (
  subst (λ (w : Text). apart s (c ∷ w) ≡ true) (append_assoc e p v)
      (apart-append s (c ∷ e ++ p) v h.0),
  Cut-append s e p v h.1,
)

pub Cut-move : (s e x p : Text) → Cut s e (x ++ p) → Cut s x p → Cut s (e ++ x) p
Cut-move s [] x p h k = k
Cut-move s (c ∷ e) x p h k = (
  subst (λ (w : Text). apart s (c ∷ w) ≡ true) (sym (append_assoc e x p)) h.0,
  Cut-move s e x p h.1 k,
)
