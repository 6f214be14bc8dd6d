-- ===== src/Continuity/Order.antt =====
-- The candidates of an eviction, sorted by the time at which they expire.
use grokcli2api_go.Prelude.{
  ℕ, ◌+◌, ◌≤◌, String, ◌≡◌, refl, ap, ◌∙◌, Option, none, some, [], ◌∷◌, arith, ◌==◌, eq_iff,
  if◌then◌else◌, length, All,
}
use grokcli2api_go.Prelude.Map.{Map, lookup, Distinct}
use grokcli2api_go.Continuity.{Binding, candidates, insert_time, sort_times}

abbrev pub expiry : Option Binding → Option ℕ
expiry none = none
expiry (some b) = some b.expires_at

pub lookup-candidates :
    (k : String) (m : Map Binding) → lookup k (candidates m) ≡ expiry (lookup k m)
unfolding lookup candidates
lookup-candidates k [] = refl
lookup-candidates k ((j, b) ∷ m) = ground (arith, lookup-candidates k m)

pub length-candidates : (m : Map Binding) → length (candidates m) ≡ length m
unfolding candidates
length-candidates [] = refl
length-candidates ((j, b) ∷ m) = ground (arith, length-candidates m)

pub Distinct-candidates : (m : Map Binding) → Distinct m → Distinct (candidates m)
unfolding candidates
Distinct-candidates [] d = tt
Distinct-candidates ((j, b) ∷ m) d =
    (lookup-candidates j m ∙ ap expiry d.0, Distinct-candidates m d.1)

lookup-insert_time :
    (k : String) (t : ℕ) (j : String) (m : Map ℕ)
    → lookup k m ≡ none
    → lookup j (insert_time k t m) ≡ (if k == j then some t else lookup j m)
unfolding lookup insert_time
lookup-insert_time k t j [] h = refl
lookup-insert_time k t j ((i, u) ∷ m) h =
    ground (arith, lookup-insert_time k t j m, eq_iff i k, eq_iff i j, eq_iff k j)

length-insert_time : (k : String) (t : ℕ) (m : Map ℕ) → length (insert_time k t m) ≡ length m + 1
unfolding insert_time
length-insert_time k t [] = refl
length-insert_time k t ((i, u) ∷ m) = ground (arith, length-insert_time k t m)

Distinct-insert_time :
    (k : String) (t : ℕ) (m : Map ℕ) → lookup k m ≡ none → Distinct m → Distinct (insert_time k t m)
unfolding lookup insert_time
Distinct-insert_time k t [] h d = (refl, tt)
Distinct-insert_time k t ((i, u) ∷ m) h d =
    ground (arith, Distinct-insert_time k t m, lookup-insert_time k t i m, eq_iff i k, eq_iff k i)

pub lookup-sort_times : (j : String) (m : Map ℕ) → Distinct m → lookup j (sort_times m) ≡ lookup j m
unfolding lookup sort_times
lookup-sort_times j [] d = refl
lookup-sort_times j ((k, t) ∷ m) d =
    ground
      (arith, lookup-insert_time k t j (sort_times m), lookup-sort_times k m, lookup-sort_times j m)

pub length-sort_times : (m : Map ℕ) → length (sort_times m) ≡ length m
unfolding sort_times
length-sort_times [] = refl
length-sort_times ((k, t) ∷ m) =
    ground (arith, length-insert_time k t (sort_times m), length-sort_times m)

pub Distinct-sort_times : (m : Map ℕ) → Distinct m → Distinct (sort_times m)
unfolding sort_times
Distinct-sort_times [] d = tt
Distinct-sort_times ((k, t) ∷ m) d =
    Distinct-insert_time k t (sort_times m) (lookup-sort_times k m d.1 ∙ d.0)
      (Distinct-sort_times m d.1)

-- No item expires before an earlier one.
abbrev pub Sorted : Map ℕ → Type 0
Sorted [] = Unit
Sorted ((k, t) ∷ m) = All (λ e. t ≤ e.1) m × Sorted m

All-insert_time :
    (b : ℕ) (k : String) (t : ℕ) (m : Map ℕ)
    → b ≤ t
    → All (λ e. b ≤ e.1) m
    → All (λ e. b ≤ e.1) (insert_time k t m)
unfolding insert_time
All-insert_time b k t [] h a = (h, tt)
All-insert_time b k t ((i, u) ∷ m) h a = ground (arith, All-insert_time b k t m h a.1)

All-weaken : (a b : ℕ) (m : Map ℕ) → a ≤ b → All (λ e. b ≤ e.1) m → All (λ e. a ≤ e.1) m
All-weaken a b [] h k = tt
All-weaken a b ((i, u) ∷ m) h k = (omega (arith, h, k.0), All-weaken a b m h k.1)

Sorted-insert_time : (k : String) (t : ℕ) (m : Map ℕ) → Sorted m → Sorted (insert_time k t m)
unfolding insert_time
Sorted-insert_time k t [] s = (tt, tt)
Sorted-insert_time k t ((i, u) ∷ m) s =
    ground (arith, Sorted-insert_time k t m s.1, All-insert_time u k t m, All-weaken t u m)

pub Sorted-sort_times : (m : Map ℕ) → Sorted (sort_times m)
unfolding sort_times
Sorted-sort_times [] = tt
Sorted-sort_times ((k, t) ∷ m) = Sorted-insert_time k t (sort_times m) (Sorted-sort_times m)
