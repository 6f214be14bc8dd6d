-- ===== src/Prelude/Map.antt =====
-- Go maps with string keys, as association lists. The order of the entries stands for the order of
-- an iteration, which Go leaves open: statements hold for every order.
use Prim.Native.Nat.{◌+◌, ◌≤◌, ◌<◌}
use Prim.Native.String.{String}
use mathlib.Core.Path.{◌≡◌, refl, ap}
use mathlib.Core.Bool.{Bool, true, false}
use mathlib.Core.Option.{Option, none, some}
use mathlib.Core.List.{List, [], ◌∷◌}
use native.Mathlib.Omega.{arith}
use text.Mathlib.Text.{◌==◌}
use text.Mathlib.TextEquality.{eq_iff}
use text.Mathlib.TextPositions.{eq_refl}
use grokcli2api_go.Prelude.Tests.{if◌then◌else◌}
use grokcli2api_go.Prelude.Lists.{length, All, All-imp, has}

abbrev pub Map {ℓ} : Type ℓ → Type ℓ
Map V = List (String × V)

module _ {ℓ} {V : Type ℓ} where
  -- v, ok := m[k]
  unfoldable pub lookup : String → Map V → Option V
  lookup k [] = none
  lookup k ((j, v) ∷ m) = if j == k then some v else lookup k m

  -- delete(m, k)
  unfoldable pub remove : String → Map V → Map V
  remove k [] = []
  remove k ((j, v) ∷ m) = let rest = remove k m in if j == k then rest else (j, v) ∷ rest

  -- m[k] = v
  unfoldable pub insert : String → V → Map V → Map V
  insert k v m = (k, v) ∷ remove k m

  -- for k, v := range m { if !f(k, v) { delete(m, k) } }
  unfoldable pub keep : (String → V → Bool) → Map V → Map V
  keep f [] = []
  keep f ((k, v) ∷ m) = let rest = keep f m in if f k v then (k, v) ∷ rest else rest

  abbrev pub keys : Map V → List String
  keys [] = []
  keys ((k, v) ∷ m) = k ∷ keys m

  -- A Go map has a key once.
  abbrev pub Distinct : Map V → Type ℓ
  Distinct [] = Unit
  Distinct ((k, v) ∷ m) = (lookup k m ≡ none) × Distinct m

  pub lookup-remove :
      (k j : String) (m : Map V) → lookup j (remove k m) ≡ (if k == j then none else lookup j m)
  unfolding lookup remove
  lookup-remove k j [] = ground arith
  lookup-remove k j ((i, v) ∷ m) =
      ground (arith, lookup-remove k j m, eq_iff i k, eq_iff i j, eq_iff k j)

  pub lookup-insert :
      (k j : String) (v : V) (m : Map V)
      → lookup j (insert k v m) ≡ (if k == j then some v else lookup j m)
  unfolding lookup insert
  lookup-insert k j v m = ground (arith, lookup-remove k j m)

  pub lookup-insert_self : (k : String) (v : V) (m : Map V) → lookup k (insert k v m) ≡ some v
  lookup-insert_self k v m = simp (lookup-insert, eq_refl)

  pub lookup-remove_self : (k : String) (m : Map V) → lookup k (remove k m) ≡ none
  lookup-remove_self k m = simp (lookup-remove, eq_refl)

  pub length-remove-le : (k : String) (m : Map V) → length (remove k m) ≤ length m
  unfolding remove
  length-remove-le k [] = omega arith
  length-remove-le k ((i, v) ∷ m) = ground (arith, length-remove-le k m)

  pub length-remove-lt :
      (k : String) (m : Map V) (v : V) → lookup k m ≡ some v → length (remove k m) < length m
  unfolding lookup remove
  length-remove-lt k [] v h = cc
  length-remove-lt k ((i, w) ∷ m) v h = ground (arith, length-remove-le k m, length-remove-lt k m v)

  pub length-insert-le : (k : String) (v : V) (m : Map V) → length (insert k v m) ≤ length m + 1
  unfolding insert
  length-insert-le k v m = omega (arith, length-remove-le k m)

  pub length-insert_old :
      (k : String) (v w : V) (m : Map V) → lookup k m ≡ some w → length (insert k v m) ≤ length m
  unfolding insert
  length-insert_old k v w m h = omega (arith, length-remove-lt k m w h)

  pub length-keep-le : (f : String → V → Bool) (m : Map V) → length (keep f m) ≤ length m
  unfolding keep
  length-keep-le f [] = omega arith
  length-keep-le f ((k, v) ∷ m) = ground (arith, length-keep-le f m)

  pub keep-none :
      (f : String → V → Bool) (j : String) (m : Map V)
      → lookup j m ≡ none
      → lookup j (keep f m) ≡ none
  unfolding lookup keep
  keep-none f j [] h = refl
  keep-none f j ((k, v) ∷ m) h = ground (arith, keep-none f j m, eq_iff k j)

  abbrev pub found : Option V → Bool
  found none = false
  found (some v) = true

  -- What a filter leaves at a key.
  abbrev pub kept : (V → Bool) → Option V → Option V
  kept f none = none
  kept f (some v) = if f v then some v else none

  pub lookup-keep :
      (f : String → V → Bool) (j : String) (m : Map V)
      → Distinct m
      → lookup j (keep f m) ≡ kept (f j) (lookup j m)
  unfolding lookup keep
  lookup-keep f j [] d = refl
  lookup-keep f j ((k, v) ∷ m) d = ground (
    arith,
    lookup-keep f j m d.1,
    eq_iff k j,
    keep-none f j m,
    ap (λ i. lookup i m) {x = k} {y = j},
  )

  pub Distinct-remove : (k : String) (m : Map V) → Distinct m → Distinct (remove k m)
  unfolding remove
  Distinct-remove k [] d = tt
  Distinct-remove k ((i, v) ∷ m) d = ground (arith, Distinct-remove k m d.1, lookup-remove k i m)

  pub Distinct-insert : (k : String) (v : V) (m : Map V) → Distinct m → Distinct (insert k v m)
  unfolding insert
  Distinct-insert k v m d = (lookup-remove_self k m, Distinct-remove k m d)

  pub Distinct-keep : (f : String → V → Bool) (m : Map V) → Distinct m → Distinct (keep f m)
  unfolding keep
  Distinct-keep f [] d = tt
  Distinct-keep f ((k, v) ∷ m) d = ground (arith, Distinct-keep f m d.1, keep-none f k m)

  -- An entry of a map is what a lookup of its key finds.
  pub entries-lookup : (m : Map V) → Distinct m → All (λ e. lookup e.0 m ≡ some e.1) m
  unfolding lookup
  entries-lookup [] d = tt
  entries-lookup ((k, v) ∷ m) d =
      (simp eq_refl, All-imp (λ e h. ground (arith, h, d.0, eq_iff k e.0)) m (entries-lookup m d.1))

  pub has-keys : (k : String) (m : Map V) → has k (keys m) ≡ found (lookup k m)
  unfolding has lookup
  has-keys k [] = refl
  has-keys k ((j, v) ∷ m) = ground (arith, has-keys k m)

  pub length-remove_key :
      (k : String) (m : Map V) → has k (keys m) ≡ true → length (remove k m) < length m
  unfolding has remove
  length-remove_key k [] h = cc
  length-remove_key k ((j, v) ∷ m) h = ground (arith, length-remove_key k m, length-remove-le k m)

abbrev pub values {ℓ} : {V : Type ℓ} → Map V → List V
values [] = []
values ((k, v) ∷ m) = v ∷ values m

-- for k := range m { m[k] = f(m[k]) }
unfoldable pub map_values {ℓ} : {V : Type ℓ} → (V → V) → Map V → Map V
map_values f [] = []
map_values f ((k, v) ∷ m) = (k, f v) ∷ map_values f m

abbrev pub on_some {ℓ} : {V : Type ℓ} → (V → V) → Option V → Option V
on_some f none = none
on_some f (some v) = some (f v)

pub lookup-map_values {ℓ} :
    {V : Type ℓ} (f : V → V) (k : String) (m : Map V)
    → lookup k (map_values f m) ≡ on_some f (lookup k m)
unfolding lookup map_values
lookup-map_values f k [] = refl
lookup-map_values f k ((j, v) ∷ m) = ground (arith, lookup-map_values f k m)

pub ruleset map_laws = (lookup-insert, lookup-remove)
