-- ===== src/Catalog/Aggregate/Limits.antt =====
-- The numeric limits of an aggregated model: the least positive one that an account advertises.
use grokcli2api_go.Prelude.{
  ℕ, ◌≤◌, ◌<◌, String, ◌≡◌, refl, ◌⊎◌, inl, List, [], ◌∷◌, arith, All, map,
}
use grokcli2api_go.Catalog.{ModelDescriptor}
use grokcli2api_go.Catalog.Aggregate.{
  Totals, no_totals, minimum_positive, absorb, absorb_all, aggregate_group,
}

-- The fold of minimumPositive that the loop makes of one field.
minimum_of : ℕ → List ℕ → ℕ
minimum_of current [] = current
minimum_of current (n ∷ ns) = minimum_of (minimum_positive current n) ns

-- A number is among the values, by cases.
abbrev pub Among : ℕ → List ℕ → Type 0
Among w [] = ⊥
Among w (n ∷ ns) = (w ≡ n) ⊎ Among w ns

-- `w` is the least positive of the values, and 0 when none is positive.
abbrev pub IsLeastPositive : ℕ → List ℕ → Type 0
IsLeastPositive w ns = ((w ≡ 0) ⊎ Among w ns) × All (λ n. 0 < n → (0 < w) × (w ≤ n)) ns

minimum_of-le : (c : ℕ) (ns : List ℕ) → 0 < c → (0 < minimum_of c ns) × (minimum_of c ns ≤ c)
unfolding minimum_of minimum_positive
minimum_of-le c [] h = omega arith
minimum_of-le c (n ∷ ns) h = ground (arith, minimum_of-le c ns, minimum_of-le n ns)

minimum_of-Among : (c : ℕ) (ns : List ℕ) → (minimum_of c ns ≡ c) ⊎ Among (minimum_of c ns) ns
unfolding minimum_of minimum_positive
minimum_of-Among c [] = inl refl
minimum_of-Among c (n ∷ ns) = ground (arith, minimum_of-Among c ns, minimum_of-Among n ns)

minimum_of-bound :
    (c : ℕ) (ns : List ℕ) → All (λ n. 0 < n → (0 < minimum_of c ns) × (minimum_of c ns ≤ n)) ns
unfolding minimum_of minimum_positive
minimum_of-bound c [] = tt
minimum_of-bound c (n ∷ ns) = (
  λ h. ground (arith, minimum_of-le c ns, minimum_of-le n ns),
  minimum_of-bound (minimum_positive c n) ns,
)

context-absorb_all :
    (t : Totals) (ds : List ModelDescriptor)
    → (absorb_all t ds).context_window
      ≡ minimum_of t.context_window (map (λ d. d.context_window) ds)
unfolding absorb_all minimum_of
context-absorb_all t [] = refl
context-absorb_all t (d ∷ ds) = context-absorb_all (absorb t d) ds

completion-absorb_all :
    (t : Totals) (ds : List ModelDescriptor)
    → (absorb_all t ds).max_completion_tokens
      ≡ minimum_of t.max_completion_tokens (map (λ d. d.max_completion_tokens) ds)
unfolding absorb_all minimum_of
completion-absorb_all t [] = refl
completion-absorb_all t (d ∷ ds) = completion-absorb_all (absorb t d) ds

minimum_of-IsLeastPositive : (ns : List ℕ) → IsLeastPositive (minimum_of 0 ns) ns
minimum_of-IsLeastPositive ns = (minimum_of-Among 0 ns, minimum_of-bound 0 ns)

-- Each limit of an aggregated model is the least positive one among its accounts, or 0 when no
-- account advertises a positive one.
pub aggregate_group_limits :
    (id : String) (ds : List ModelDescriptor)
    → let item = aggregate_group id ds in
      IsLeastPositive item.context_window (map (λ d. d.context_window) ds)
      × IsLeastPositive item.max_completion_tokens (map (λ d. d.max_completion_tokens) ds)
unfolding aggregate_group
aggregate_group_limits id ds = (
  rw (context-absorb_all no_totals ds)
      (minimum_of-IsLeastPositive (map (λ d. d.context_window) ds)),
  rw (completion-absorb_all no_totals ds)
      (minimum_of-IsLeastPositive (map (λ d. d.max_completion_tokens) ds)),
)
