-- ===== src/Prelude/Sort.antt =====
-- sort.Slice and sort.Strings on items with a text for a key. The library's algorithm is not
-- modelled: an insertion sort gives the one sorted order of items with different keys.
use Prim.Native.String.{String, compare}
use mathlib.Core.Path.{◌≡◌, refl, sym, ◌∙◌}
use mathlib.Core.Bool.{Bool, true, ◌||◌}
use mathlib.Core.List.{List, [], ◌∷◌, map}
use native.Mathlib.Omega.{arith}
use text.Mathlib.Text.{is_lt}
use grokcli2api_go.Prelude.Tests.{if◌then◌else◌}
use grokcli2api_go.Prelude.Lists.{has, All, any}

-- a < b on texts
abbrev pub text_ltb : String → String → Bool
text_ltb a b = is_lt (compare a b)

module _ {ℓ} {A : Type ℓ} (key : A → String) where
  unfoldable pub insert_sorted : A → List A → List A
  insert_sorted x [] = x ∷ []
  insert_sorted x (y ∷ ys) = if text_ltb (key y) (key x) then y ∷ insert_sorted x ys else x ∷ y ∷ ys

  unfoldable pub sort_by : List A → List A
  unfolding insert_sorted
  sort_by [] = []
  sort_by (x ∷ xs) = insert_sorted x (sort_by xs)

  All-insert_sorted {κ} :
      (P : A → Type κ) (x : A) (ys : List A) → P x → All P ys → All P (insert_sorted x ys)
  unfolding insert_sorted
  All-insert_sorted P x [] h k = (h, k)
  All-insert_sorted P x (y ∷ ys) h k = ground (arith, All-insert_sorted P x ys h k.1)

  -- Sorting keeps what holds of every item.
  pub All-sort_by {κ} : (P : A → Type κ) (xs : List A) → All P xs → All P (sort_by xs)
  unfolding sort_by
  All-sort_by P [] h = h
  All-sort_by P (x ∷ xs) h = All-insert_sorted P x (sort_by xs) h.0 (All-sort_by P xs h.1)

  has-insert_sorted :
      (k : String) (x : A) (ys : List A)
      → has k (map key (insert_sorted x ys)) ≡ has k (key x ∷ map key ys)
  unfolding insert_sorted has
  has-insert_sorted k x [] = refl
  has-insert_sorted k x (y ∷ ys) = ground (arith, has-insert_sorted k x ys)

  -- Sorting keeps the keys.
  pub has-sort_by : (k : String) (xs : List A) → has k (map key (sort_by xs)) ≡ has k (map key xs)
  unfolding sort_by has
  has-sort_by k [] = refl
  has-sort_by k (x ∷ xs) = ground (arith, has-insert_sorted k x (sort_by xs), has-sort_by k xs)

  any-insert_sorted :
      (t : A → Bool) (x : A) (ys : List A) → any t (insert_sorted x ys) ≡ (t x || any t ys)
  unfolding insert_sorted any
  any-insert_sorted t x [] = refl
  any-insert_sorted t x (y ∷ ys) = ground (arith, any-insert_sorted t x ys)

  -- Sorting keeps the members.
  pub any-sort_by : (t : A → Bool) (xs : List A) → any t (sort_by xs) ≡ any t xs
  unfolding sort_by any
  any-sort_by t [] = refl
  any-sort_by t (x ∷ xs) = ground (arith, any-insert_sorted t x (sort_by xs), any-sort_by t xs)

-- Each text is less than the later ones, as in a sorted list with no text twice.
abbrev pub StrictlySorted : List String → Type 0
StrictlySorted [] = Unit
StrictlySorted (x ∷ xs) = All (λ y. text_ltb x y ≡ true) xs × StrictlySorted xs

has-map_self : (k : String) (xs : List String) → has k (map (λ s. s) xs) ≡ has k xs
unfolding has
has-map_self k [] = refl
has-map_self k (x ∷ xs) = ground (arith, has-map_self k xs)

-- sort.Strings keeps the members.
pub has-sort_texts : (k : String) (xs : List String) → has k (sort_by (λ s. s) xs) ≡ has k xs
has-sort_texts k xs =
    sym (has-map_self k (sort_by (λ s. s) xs)) ∙ has-sort_by (λ s. s) k xs ∙ has-map_self k xs
