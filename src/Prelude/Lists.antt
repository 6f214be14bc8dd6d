-- ===== src/Prelude/Lists.antt =====
-- Lists over the native numbers, and predicates on all members.
use Prim.Native.Nat.{ℕ, zero, suc, ◌+◌, ◌≤◌}
use Prim.Native.String.{String}
use mathlib.Core.Path.{◌≡◌, refl, subst}
use mathlib.Core.Logic.{inl, inr}
use mathlib.Core.Bool.{Bool, true, false, false≢true, ◌&&◌, ◌||◌}
use mathlib.Core.Option.{Option, none, some}
use mathlib.Core.List.{List, [], ◌∷◌, ◌++◌}
use native.Mathlib.Omega.{arith}
use text.Mathlib.Text.{◌==◌}
use text.Mathlib.TextEquality.{eq_iff}
use grokcli2api_go.Prelude.Tests.{if◌then◌else◌, Bool-cases}

module _ {ℓ} {A : Type ℓ} where
  abbrev pub length : List A → ℕ
  length [] = 0
  length (x ∷ xs) = suc (length xs)

  abbrev pub is_nil : List A → Bool
  is_nil [] = true
  is_nil (x ∷ xs) = false

  abbrev pub get_elem? : List A → ℕ → Option A
  get_elem? [] i = none
  get_elem? (x ∷ xs) zero = some x
  get_elem? (x ∷ xs) (suc i) = get_elem? xs i

  pub length-append : (xs ys : List A) → length (xs ++ ys) ≡ length xs + length ys
  length-append [] ys = omega arith
  length-append (x ∷ xs) ys = omega (arith, length-append xs ys)

  abbrev pub All {κ} : (A → Type κ) → List A → Type κ
  All P [] = Unit
  All P (x ∷ xs) = P x × All P xs

  abbrev pub select : (A → Bool) → List A → List A
  select f [] = []
  select f (x ∷ xs) = if f x then x ∷ select f xs else select f xs

  pub length-select-le : (f : A → Bool) (xs : List A) → length (select f xs) ≤ length xs
  length-select-le f [] = omega arith
  length-select-le f (x ∷ xs) = ground (arith, length-select-le f xs)

  pub All-append {κ} : (P : A → Type κ) (xs ys : List A) → All P xs → All P ys → All P (xs ++ ys)
  All-append P [] ys h k = k
  All-append P (x ∷ xs) ys h k = (h.0, All-append P xs ys h.1 k)

  pub All-imp {κ μ} :
      {P : A → Type κ} {Q : A → Type μ} (f : (x : A) → P x → Q x) (xs : List A)
      → All P xs
      → All Q xs
  All-imp f [] h = tt
  All-imp f (x ∷ xs) h = (f x h.0, All-imp f xs h.1)

  pub All-zip {κ μ ν} :
      {P : A → Type κ} {Q : A → Type μ} {R : A → Type ν} (f : (x : A) → P x → Q x → R x)
      (xs : List A)
      → All P xs
      → All Q xs
      → All R xs
  All-zip f [] h k = tt
  All-zip f (x ∷ xs) h k = (f x h.0 k.0, All-zip f xs h.1 k.1)

  -- Whether some item passes a test.
  unfoldable pub any : (A → Bool) → List A → Bool
  any t [] = false
  any t (x ∷ xs) = t x || any t xs

  pub any-append : (t : A → Bool) (xs ys : List A) → any t (xs ++ ys) ≡ (any t xs || any t ys)
  unfolding any
  any-append t [] ys = refl
  any-append t (x ∷ xs) ys = ground (arith, any-append t xs ys)

-- Membership of a text in a list of texts, as a test.
unfoldable pub has : String → List String → Bool
has k [] = false
has k (x ∷ xs) = if x == k then true else has k xs

-- What holds of all members holds of one that the test finds.
pub All-has {κ} :
    (P : String → Type κ) (k : String) (xs : List String) → All P xs → has k xs ≡ true → P k
unfolding has
All-has P k [] h e = absurd (false≢true e)
All-has P k (x ∷ xs) h e = elim (Bool-cases (x == k)) [
  | inl same ↦ subst P ((eq_iff x k).0 same) h.0
  | inr other ↦ All-has P k xs h.1 (ground (arith, other))
]

pub has-append : (k : String) (xs ys : List String) → has k (xs ++ ys) ≡ (has k xs || has k ys)
unfolding has
has-append k [] ys = refl
has-append k (x ∷ xs) ys = ground (arith, has-append k xs ys)

pub has-select :
    (k : String) (f : String → Bool) (xs : List String) → has k (select f xs) ≡ (has k xs && f k)
unfolding has
has-select k f [] = refl
has-select k f (x ∷ xs) = ground (arith, has-select k f xs, eq_iff x k)
