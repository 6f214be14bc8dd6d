-- ===== src/Continuity/Removal.antt =====
-- The removal of the first candidates of an eviction: what is left, and how much.
use grokcli2api_go.Prelude.{
  ℕ, zero, suc, ◌+◌, ◌-◌, ◌≤◌, ◌<◌, String, ◌≡◌, refl, ap, sym, ◌∙◌, subst, inl, inr, ◌⊎◌, Bool,
  true, false, Option, none, some, List, [], ◌∷◌, arith, ◌==◌, eq_iff, if◌then◌else◌, ltb, length,
  All, Bool-cases, Option-cases,
}
use grokcli2api_go.Prelude.Map.{
  Map, lookup, remove, Distinct, found, lookup-remove, Distinct-remove,
}
use grokcli2api_go.Continuity.{Binding, remove_first}
use grokcli2api_go.Continuity.Order.{Sorted}

-- The items that remove_first deletes.
unfoldable pub first : ℕ → Map ℕ → Map ℕ
first zero items = []
first (suc n) [] = []
first (suc n) ((k, t) ∷ items) = (k, t) ∷ first n items

first-none :
    (n : ℕ) (items : Map ℕ) (k : String) → lookup k items ≡ none → lookup k (first n items) ≡ none
unfolding first lookup
first-none zero items k h = refl
first-none (suc n) [] k h = refl
first-none (suc n) ((j, t) ∷ items) k h = ground (arith, first-none n items k)

pub lookup-remove_first :
    (n : ℕ) (items : Map ℕ) (m : Map Binding) (k : String)
    → Distinct items
    → lookup k (remove_first n items m)
      ≡ (if found (lookup k (first n items)) then none else lookup k m)
unfolding remove_first first lookup
lookup-remove_first zero items m k d = refl
lookup-remove_first (suc n) [] m k d = refl
lookup-remove_first (suc n) ((j, t) ∷ items) m k d =
    ground (arith, lookup-remove_first n items (remove j m) k d.1, lookup-remove j k m)

pub Distinct-remove_first :
    (n : ℕ) (items : Map ℕ) (m : Map Binding) → Distinct m → Distinct (remove_first n items m)
unfolding remove_first
Distinct-remove_first zero items m d = d
Distinct-remove_first (suc n) [] m d = d
Distinct-remove_first (suc n) ((j, t) ∷ items) m d =
    Distinct-remove_first n items (remove j m) (Distinct-remove j m d)

length-remove-none :
    (k : String) (m : Map Binding) → lookup k m ≡ none → length (remove k m) ≡ length m
unfolding lookup remove
length-remove-none k [] h = refl
length-remove-none k ((j, b) ∷ m) h = ground (arith, length-remove-none k m)

length-remove-found :
    (k : String) (m : Map Binding)
    → Distinct m
    → found (lookup k m) ≡ true
    → length (remove k m) + 1 ≡ length m
unfolding lookup remove
length-remove-found k [] d h = cc
length-remove-found k ((j, b) ∷ m) d h = ground (
  arith,
  length-remove-found k m d.1,
  length-remove-none k m,
  eq_iff j k,
  ap (λ i. lookup i m) {x = j} {y = k},
)

-- Every item is a key of the map.
abbrev pub Within : Map ℕ → Map Binding → Type 0
Within items m = (k : String) → found (lookup k items) ≡ true → found (lookup k m) ≡ true

Within-tail :
    (j : String) (t : ℕ) (items : Map ℕ) (m : Map Binding)
    → lookup j items ≡ none
    → Within ((j, t) ∷ items) m
    → Within items (remove j m)
unfolding lookup
Within-tail j t items m d h k f =
    ground
      (arith, f, h k, lookup-remove j k m, eq_iff j k, ap (λ i. lookup i items) {x = j} {y = k}, d)

pub length-remove_first :
    (n : ℕ) (items : Map ℕ) (m : Map Binding)
    → Distinct items
    → Distinct m
    → Within items m
    → n ≤ length items
    → length (remove_first n items m) + n ≡ length m
unfolding remove_first lookup
length-remove_first zero items m d e h l = omega arith
length-remove_first (suc n) [] m d e h l = omega (arith, l)
length-remove_first (suc n) ((j, t) ∷ items) m d e h l = ground (
  arith,
  l,
  length-remove_first n items (remove j m) d.1 (Distinct-remove j m e)
      (Within-tail j t items m d.0 h),
  length-remove-found j m e (h j (simp grokcli2api_go.Prelude.eq_refl)),
)

All-lookup :
    (b : ℕ) (m : Map ℕ) (k : String) (t : ℕ) → All (λ e. b ≤ e.1) m → lookup k m ≡ some t → b ≤ t
unfolding lookup
All-lookup b [] k t a h = absurd (ground (arith, h))
All-lookup b ((j, u) ∷ m) k t a h = ground (arith, All-lookup b m k t a.1)

-- The first items of a sorted list expire no later than the others.
pub first-Sorted :
    (n : ℕ) (items : Map ℕ) (k j : String) (t u : ℕ)
    → Sorted items
    → lookup k (first n items) ≡ some t
    → lookup j items ≡ some u
    → lookup j (first n items) ≡ none
    → t ≤ u
unfolding first lookup
first-Sorted zero items k j t u s h g e = absurd (ground (arith, h))
first-Sorted (suc n) [] k j t u s h g e = absurd (ground (arith, h))
first-Sorted (suc n) ((i, v) ∷ items) k j t u s h g e =
    ground (arith, h, g, e, first-Sorted n items k j t u s.1, All-lookup v items j u s.0)

pub first-lookup :
    (n : ℕ) (items : Map ℕ) (k : String) (t : ℕ)
    → lookup k (first n items) ≡ some t
    → lookup k items ≡ some t
unfolding first lookup
first-lookup zero items k t h = absurd (ground (arith, h))
first-lookup (suc n) [] k t h = absurd (ground (arith, h))
first-lookup (suc n) ((i, v) ∷ items) k t h = ground (arith, h, first-lookup n items k t)
