-- ===== src/Anthropic/Stops/First.antt =====
-- Where the earliest occurrence of a sequence is, and that none starts before it.
use grokcli2api_go.Prelude.{
  ℕ, zero, suc, ◌≤◌, ◌≡◌, refl, sym, subst, true, false, Option, none, some, List, [], ◌∷◌, ◌++◌,
  arith, Bool-cases, inl, inr, ◌⊎◌, All, any, ltb,
}
use mathlib.Core.List.{append_assoc}
use grokcli2api_go.Anthropic.Stops.{
  Text, take, drop, begins, index_of, one_later, earlier, earliest, same_text,
}
use grokcli2api_go.Anthropic.Stops.Search.{index_of-cons, index_of-tail, same_text_refl, take-drop}
use grokcli2api_go.Anthropic.Stops.Held.{Cut}

-- No occurrence of the sequence starts in the first of the two texts.
abbrev pub Clear : Text → Text → Text → Type 0
Clear s [] r = Unit
Clear s (c ∷ e) r = (begins s (c ∷ e ++ r) ≡ false) × Clear s e r

pub Cut-Clear : (s e r : Text) → Cut s e r → Clear s e r
Cut-Clear s [] r h = tt
Cut-Clear s (c ∷ e) r h = (ground (arith, h.0), Cut-Clear s e r h.1)

pub Clear-move : (s e x r : Text) → Clear s e (x ++ r) → Clear s x r → Clear s (e ++ x) r
Clear-move s [] x r h k = k
Clear-move s (c ∷ e) x r h k = (
  subst (λ (w : Text). begins s (c ∷ w) ≡ false) (sym (append_assoc e x r)) h.0,
  Clear-move s e x r h.1 k,
)

pub Clear-index_of : (s e r : Text) → Clear s e r → index_of s r ≡ none → index_of s (e ++ r) ≡ none
Clear-index_of s [] r h k = k
Clear-index_of s (c ∷ e) r h k = index_of-cons s c (e ++ r) h.0 (Clear-index_of s e r h.1 k)

pub index_of-rest : (s a b : Text) → index_of s (a ++ b) ≡ none → index_of s b ≡ none
index_of-rest s [] b h = h
index_of-rest s (c ∷ a) b h = index_of-rest s a b (index_of-tail s c (a ++ b) h)

-- A place that is none or not before i.
abbrev pub NotBefore : ℕ → Option ℕ → Type 0
NotBefore i none = Unit
NotBefore i (some j) = i ≤ j

NotBefore-one_later : (i : ℕ) (o : Option ℕ) → NotBefore (suc i) (one_later o) → NotBefore i o
NotBefore-one_later i none h = tt
NotBefore-one_later i (some j) h = omega (arith, h)

pub NotBefore-Clear :
    (s t : Text) (i : ℕ) → NotBefore i (index_of s t) → Clear s (take i t) (drop i t)
unfolding index_of
NotBefore-Clear s t zero h = tt
NotBefore-Clear s [] (suc i) h = tt
NotBefore-Clear s (c ∷ t) (suc i) h = elim (Bool-cases (begins s (c ∷ t))) [
  | inl b ↦ absurd (omega (arith, rw b at h))
  | inr b ↦ (
    rw (take-drop i t, b) refl,
    NotBefore-Clear s t i (NotBefore-one_later i (index_of s t) (rw b at h)),
  )
]

earlier-none :
    (o : Option ℕ) (s : Text) (best : Option (ℕ × Text))
    → earlier o s best ≡ none
    → (best ≡ none) × (o ≡ none)
earlier-none none s best h = (h, refl)
earlier-none (some i) s none h = cc
earlier-none (some i) s (some b) h = absurd (ground (arith, h))

pub earliest-none :
    (ss : List Text) (t : Text) (best : Option (ℕ × Text))
    → earliest ss t best ≡ none
    → (best ≡ none) × All (λ s. index_of s t ≡ none) ss
unfolding earliest
earliest-none [] t best h = (h, tt)
earliest-none (s ∷ ss) t best h =
    let rest = earliest-none ss t (earlier (index_of s t) s best) h in
    let both = earlier-none (index_of s t) s best rest.0 in (both.0, (both.1, rest.1))

abbrev at : Option (ℕ × Text) → Option ℕ
at none = none
at (some b) = some b.0

earlier-NotBefore :
    (o : Option ℕ) (s : Text) (best : Option (ℕ × Text)) (i : ℕ)
    → NotBefore i (at (earlier o s best))
    → NotBefore i (at best) × NotBefore i o
earlier-NotBefore none s best i h = (h, tt)
earlier-NotBefore (some j) s none i h = (tt, h)
earlier-NotBefore (some j) s (some (k, m)) i h = elim (Bool-cases (ltb j k)) [
  | inl less ↦ (ground (arith, less, rw less at h), ground (arith, rw less at h))
  | inr more ↦ (ground (arith, more, rw more at h), ground (arith, more, rw more at h))
]

earliest-NotBefore :
    (ss : List Text) (t : Text) (best : Option (ℕ × Text)) (i : ℕ)
    → NotBefore i (at (earliest ss t best))
    → NotBefore i (at best) × All (λ s. NotBefore i (index_of s t)) ss
unfolding earliest
earliest-NotBefore [] t best i h = (h, tt)
earliest-NotBefore (s ∷ ss) t best i h =
    let rest = earliest-NotBefore ss t (earlier (index_of s t) s best) i h in
    let both = earlier-NotBefore (index_of s t) s best i rest.0 in (both.0, (both.1, rest.1))

-- No sequence occurs before the place that is found.
pub earliest-first :
    (ss : List Text) (t m : Text) (i : ℕ)
    → earliest ss t none ≡ some (i, m)
    → All (λ s. NotBefore i (index_of s t)) ss
earliest-first ss t m i h = (earliest-NotBefore ss t none i (rw h (omega arith))).1

-- What is found is the start value, or a sequence at its place.
abbrev Located : List Text → Text → Option (ℕ × Text) → ℕ → Text → Type 0
Located ss t best i m =
    (best ≡ some (i, m)) ⊎ (any (λ s. same_text s m) ss ≡ true) × (index_of m t ≡ some i)

earlier-Located :
    (s : Text) (t : Text) (o : Option ℕ) (best : Option (ℕ × Text)) (i : ℕ) (m : Text)
    → index_of s t ≡ o
    → earlier o s best ≡ some (i, m)
    → (best ≡ some (i, m)) ⊎ (s ≡ m) × (index_of m t ≡ some i)
earlier-Located s t none best i m e h = inl h
earlier-Located s t (some j) none i m e h = inr (cc, cc)
earlier-Located s t (some j) (some (k, n)) i m e h = elim (Bool-cases (ltb j k)) [
  | inl less ↦ (let h = rw less at h in inr (cc, cc))
  | inr more ↦ inl (rw more at h)
]

earliest-Located :
    (ss : List Text) (t : Text) (best : Option (ℕ × Text)) (i : ℕ) (m : Text)
    → earliest ss t best ≡ some (i, m)
    → Located ss t best i m
unfolding earliest any
earliest-Located [] t best i m h = inl h
earliest-Located (s ∷ ss) t best i m h =
    elim (earliest-Located ss t (earlier (index_of s t) s best) i m h) [
      | inr later ↦ inr (ground (arith, later.0), later.1)
      | inl here ↦ elim (earlier-Located s t (index_of s t) best i m refl here) [
        | inl before ↦ inl before
        | inr this ↦ inr (rw (this.0, same_text_refl m) refl, this.1)
      ]
    ]

pub earliest-some :
    (ss : List Text) (t m : Text) (i : ℕ)
    → earliest ss t none ≡ some (i, m)
    → (any (λ s. same_text s m) ss ≡ true) × (index_of m t ≡ some i)
earliest-some ss t m i h = elim (earliest-Located ss t none i m h) [
  | inl bad ↦ cc
  | inr good ↦ good
]
