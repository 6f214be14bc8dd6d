-- ===== src/Anthropic/Stops/Search.antt =====
-- Prefixes, suffixes and occurrences of a text in another.
use Prim.Native.Char.{Char}
use grokcli2api_go.Prelude.{
  ℕ, zero, suc, ◌-◌, ◌≤◌, String, ◌≡◌, refl, ap, sym, ◌∙◌, subst, Bool, true, false, not, ◌&&◌,
  Option, none, some, List, [], ◌∷◌, ◌++◌, arith, eq_iff, eq_refl, length, length-append,
  Bool-cases, inl, inr,
}
use grokcli2api_go.Anthropic.Stops.{
  Text, take, drop, same_char, begins, same_text, ends, index_of, one_later,
}

pub same_char_refl : (c : Char) → same_char c c ≡ true
same_char_refl c = eq_refl (String.◌∷◌ c String.[])

pub same_char-eq : (c d : Char) → same_char c d ≡ true → c ≡ d
same_char-eq c d h = cc ((eq_iff (String.◌∷◌ c String.[]) (String.◌∷◌ d String.[])).0 h)

pub same_text_refl : (t : Text) → same_text t t ≡ true
unfolding same_text
same_text_refl [] = refl
same_text_refl (c ∷ t) = ground (arith, same_char_refl c, same_text_refl t)

-- Neither text begins the other.
abbrev pub apart : Text → Text → Bool
apart s t = not (begins s t) && not (begins t s)

-- A text that is apart stays apart however it goes on.
pub apart-append : (s t v : Text) → apart s t ≡ true → apart s (t ++ v) ≡ true
unfolding begins
apart-append [] t v h = cc
apart-append (c ∷ s) [] v h = cc
apart-append (c ∷ s) (d ∷ t) v h =
    ground (arith, apart-append s t v, same_char-eq c d, same_char-eq d c, same_char_refl c)

pub index_of-tail :
    (s : Text) (c : Char) (t : Text) → index_of s (c ∷ t) ≡ none → index_of s t ≡ none
unfolding index_of
index_of-tail s c t h = ground arith

pub index_of-begins : (s t : Text) → index_of s t ≡ none → begins s t ≡ false
unfolding index_of
index_of-begins s [] h = ground arith
index_of-begins s (c ∷ t) h = ground arith

pub index_of-cons :
    (s : Text) (c : Char) (t : Text)
    → begins s (c ∷ t) ≡ false
    → index_of s t ≡ none
    → index_of s (c ∷ t) ≡ none
unfolding index_of
index_of-cons s c t h g = ground arith

pub take-drop {ℓ} : {A : Type ℓ} (n : ℕ) (xs : List A) → take n xs ++ drop n xs ≡ xs
take-drop zero xs = refl
take-drop (suc n) [] = refl
take-drop (suc n) (x ∷ xs) = ap (λ l. x ∷ l) (take-drop n xs)

pub length-drop {ℓ} : {A : Type ℓ} (n : ℕ) (xs : List A) → length (drop n xs) ≡ length xs - n
length-drop zero xs = omega arith
length-drop (suc n) [] = omega arith
length-drop (suc n) (x ∷ xs) = omega (arith, length-drop n xs)

pub drop-length-append {ℓ} :
    {A : Type ℓ} (xs ys : List A) → drop (length (xs ++ ys) - length ys) (xs ++ ys) ≡ ys
drop-length-append {A = A} xs ys = subst (λ n. drop n (xs ++ ys) ≡ ys) (sym count) (dropped xs)
  where
    count : length (xs ++ ys) - length ys ≡ length xs
    count = omega (arith, length-append xs ys)

    dropped : (zs : List A) → drop (length zs) (zs ++ ys) ≡ ys
    dropped [] = refl
    dropped (z ∷ zs) = dropped zs

-- A text that begins another is what the other starts with.
pub begins-take : (u s : Text) → begins u s ≡ true → (take (length u) s ≡ u) × (length u ≤ length s)
unfolding begins
begins-take [] s h = (refl, omega arith)
begins-take (c ∷ u) [] h = cc
begins-take (c ∷ u) (d ∷ s) h =
    let rest = begins-take u s (ground (arith, h)) in
    let same : c ≡ d = same_char-eq c d (ground (arith, h)) in (cc, omega (arith, rest.1))

pub begins-whole : (u s : Text) → begins u s ≡ true → length u ≡ length s → begins s u ≡ true
unfolding begins
begins-whole [] [] h l = refl
begins-whole [] (d ∷ s) h l = absurd (omega (arith, l))
begins-whole (c ∷ u) [] h l = cc
begins-whole (c ∷ u) (d ∷ s) h l = ground (
  arith,
  h,
  begins-whole u s (ground (arith, h)) (omega (arith, l)),
  same_char-eq c d,
  same_char_refl c,
)

pub ends-suffix : (x u : Text) → ends (x ++ u) u ≡ true
unfolding ends
ends-suffix x u = rw (drop-length-append x u, same_text_refl u) (ground (arith, length-append x u))

begins-drop : (s t : Text) → begins s t ≡ true → s ++ drop (length s) t ≡ t
begins-drop s t h =
    ap (λ l. l ++ drop (length s) t) (sym (begins-take s t h).0) ∙ take-drop (length s) t

one_later-some : (o : Option ℕ) (i : ℕ) → one_later o ≡ some (suc i) → o ≡ some i
one_later-some none i h = cc
one_later-some (some j) i h = ground (arith, h)

one_later-zero : (o : Option ℕ) → one_later o ≡ some zero → ⊥
one_later-zero none h = cc
one_later-zero (some j) h = ground (arith, h)

index_of-begins-drop : (s t : Text) (i : ℕ) → index_of s t ≡ some i → begins s (drop i t) ≡ true
unfolding index_of
index_of-begins-drop s [] zero h = ground (arith, h)
index_of-begins-drop s [] (suc i) h = ground (arith, h)
index_of-begins-drop s (c ∷ t) zero h = elim (Bool-cases (begins s (c ∷ t))) [
  | inl b ↦ b
  | inr b ↦ absurd (one_later-zero (index_of s t) (rw b at h))
]
index_of-begins-drop s (c ∷ t) (suc i) h = elim (Bool-cases (begins s (c ∷ t))) [
  | inl b ↦ absurd (ground (arith, b, h))
  | inr b ↦ index_of-begins-drop s t i (one_later-some (index_of s t) i (rw b at h))
]

-- Where an occurrence is said to be, there is one.
pub index_of-drop :
    (s t : Text) (i : ℕ) → index_of s t ≡ some i → s ++ drop (length s) (drop i t) ≡ drop i t
index_of-drop s t i h = begins-drop s (drop i t) (index_of-begins-drop s t i h)

pub index_of-splits :
    (s t : Text) (i : ℕ) → index_of s t ≡ some i → take i t ++ (s ++ drop (length s) (drop i t)) ≡ t
index_of-splits s t i h = ap (λ l. take i t ++ l) (index_of-drop s t i h) ∙ take-drop i t
