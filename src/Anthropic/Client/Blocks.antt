-- ===== src/Anthropic/Client/Blocks.antt =====
-- The translator's blocks: their indices differ, and what opening, closing and writing to one does to
-- the indices that are open.
use grokcli2api_go.Prelude.{
  ℕ, ◌<◌, String, ◌≡◌, refl, ap, sym, ◌∙◌, Bool, true, false, Option, none, some, List, [], ◌∷◌,
  arith, ◌==◌, eq_iff, eq_refl, if◌then◌else◌, has, Bool-cases, inl, inr, map,
}
use mathlib.Core.Option.{some-injective}
use grokcli2api_go.Prelude.Map.{Map, lookup, Distinct, found}
use grokcli2api_go.Anthropic.Stream.{Block, adjust, insert_key, sort_keys}
use grokcli2api_go.Anthropic.Client.{has_index, drop_index, open_indices}

-- Each block has a smaller index than those opened after it, which stand before it, and a key of its own.
abbrev pub Descending : ℕ → Map Block → Type 0
Descending n [] = Unit
Descending n ((k, b) ∷ m) = (b.index < n) × (lookup k m ≡ none) × Descending b.index m

pub Descending-Distinct : (n : ℕ) (m : Map Block) → Descending n m → Distinct m
Descending-Distinct n [] d = tt
Descending-Distinct n ((k, b) ∷ m) d = (d.1, Descending-Distinct b.index m d.2)

pub lookup-adjust :
    (j key : String) (f : Block → Block) (m : Map Block)
    → lookup j (adjust key f m)
      ≡ (if key == j then elim (lookup j m) [ none ↦ none | some b ↦ some (f b) ] else lookup j m)
unfolding lookup adjust
lookup-adjust j key f [] = ground arith
lookup-adjust j key f ((k, b) ∷ m) =
    ground (arith, lookup-adjust j key f m, eq_iff k key, eq_iff k j, eq_iff key j)

lookup-adjust-none :
    (j key : String) (f : Block → Block) (m : Map Block)
    → lookup j m ≡ none
    → lookup j (adjust key f m) ≡ none
lookup-adjust-none j key f m h = rw (lookup-adjust j key f m, h) (ground arith)

-- Writing to a block without changing its index keeps the indices apart.
pub Descending-adjust :
    (n : ℕ) (key : String) (f : Block → Block) (m : Map Block)
    → ((b : Block) → (f b).index ≡ b.index)
    → Descending n m
    → Descending n (adjust key f m)
unfolding adjust
Descending-adjust n key f [] same d = tt
Descending-adjust n key f ((k, b) ∷ m) same d = elim (Bool-cases (k == key)) [
  | inl here ↦ rw here (rw (same b) d)
  | inr there ↦
      rw there (d.0, lookup-adjust-none k key f m d.1, Descending-adjust b.index key f m same d.2)
]

-- Writing to a block that stays open keeps the open indices.
pub open_indices-adjust :
    (key : String) (f : Block → Block) (m : Map Block)
    → ((b : Block) → (f b).index ≡ b.index)
    → ((b : Block) → (f b).closed ≡ b.closed)
    → open_indices (adjust key f m) ≡ open_indices m
unfolding adjust
open_indices-adjust key f [] same still = refl
open_indices-adjust key f ((k, b) ∷ m) same still = elim (Bool-cases (k == key)) [
  | inl here ↦ rw here (rw (same b, still b) refl)
  | inr there ↦ rw there (rw (open_indices-adjust key f m same still) refl)
]

pub lookup-Descending :
    (n : ℕ) (key : String) (b : Block) (m : Map Block)
    → Descending n m
    → lookup key m ≡ some b
    → b.index < n
unfolding lookup
lookup-Descending n key b [] d h = cc
lookup-Descending n key b ((k, c) ∷ m) d h = elim (Bool-cases (k == key)) [
  | inl here ↦
      (let same = some-injective c b (rw here at h) in
        omega (arith, d.0, ap (λ (x : Block). x.index) same))
  | inr there ↦ omega (arith, d.0, lookup-Descending c.index key b m d.2 (rw there at h))
]

-- A block that is not closed has an open index.
pub has_index-open :
    (key : String) (b : Block) (m : Map Block)
    → lookup key m ≡ some b
    → b.closed ≡ false
    → has_index b.index (open_indices m) ≡ true
unfolding lookup
has_index-open key b [] h c = cc
has_index-open key b ((k, d) ∷ m) h c = elim (Bool-cases (k == key)) [
  | inl here ↦ (let same = some-injective d b (rw here at h) in rw (same, c) (ground arith))
  | inr there ↦ (let rest = has_index-open key b m (rw there at h) c in ground (arith, rest))
]

abbrev pub set_closed : Block → Block
set_closed b = record b { closed = true }

-- Closing an open block takes its index out of the open ones.
pub open_indices-close :
    (n : ℕ) (key : String) (b : Block) (m : Map Block)
    → Descending n m
    → lookup key m ≡ some b
    → b.closed ≡ false
    → open_indices (adjust key set_closed m) ≡ drop_index b.index (open_indices m)
unfolding lookup adjust
open_indices-close n key b [] d h c = cc
open_indices-close n key b ((k, x) ∷ m) d h c = elim (Bool-cases (k == key)) [
  | inl here ↦ (let same = some-injective x b (rw here at h) in rw (here, same, c) (ground arith))
  | inr there ↦
      let h = rw there at h in
      let less = lookup-Descending x.index key b m d.2 h in
      let rest = open_indices-close x.index key b m d.2 h c in rw there (ground (arith, rest, less))
]

-- Whether a key has no block or a closed one.
abbrev pub is_shut : Option Block → Bool
is_shut none = true
is_shut (some b) = b.closed

pub shut-open_indices :
    (n : ℕ) (m : Map Block)
    → Descending n m
    → ((k : String) → is_shut (lookup k m) ≡ true)
    → open_indices m ≡ []
unfolding lookup
shut-open_indices n [] d h = refl
shut-open_indices n ((k, b) ∷ m) d h =
    let here = h k in
    let shut : b.closed ≡ true = rw (eq_refl k) at here in
    let rest : (j : String) → is_shut (lookup j m) ≡ true = λ j. elim (Bool-cases (k == j)) [
      | inl same ↦ rw (ap (λ i. lookup i m) (sym ((eq_iff k j).0 same)) ∙ d.1) refl
      | inr other ↦ (let there = h j in rw other at there)
    ] in
    rw shut (shut-open_indices b.index m d.2 rest)

-- The keys that finish closes are those of the blocks.
has-insert_key :
    (k : String) (x : String × ℕ) (ys : List (String × ℕ))
    → has k (map (λ y. y.0) (insert_key x ys)) ≡ has k (x.0 ∷ map (λ y. y.0) ys)
unfolding has
has-insert_key k x [] = refl
has-insert_key k x (y ∷ ys) = ground (arith, has-insert_key k x ys)

pub has-sort_keys :
    (k : String) (m : Map Block) → has k (map (λ y. y.0) (sort_keys m)) ≡ found (lookup k m)
unfolding has lookup
has-sort_keys k [] = refl
has-sort_keys k ((j, b) ∷ m) =
    has-insert_key k (j, b.index) (sort_keys m) ∙ ground (arith, has-sort_keys k m)
