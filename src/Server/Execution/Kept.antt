-- ===== src/Server/Execution/Kept.antt =====
-- What the collector of state tokens keeps: tokens that were collected, and the text of a signature.
use mathlib.Core.Bool.{false≢true}
use grokcli2api_go.Prelude.{
  inl, inr, String, ◌≡◌, ◌≢◌, refl, ap, ◌∙◌, Bool, true, false, ◌||◌, none, some, List, [], ◌∷◌,
  arith, eq_iff, eq_refl, if◌then◌else◌, Bool-cases, with_option, option_both, has, has-append,
}
use grokcli2api_go.Prelude.Int.{ℤ, int_eqb}
use grokcli2api_go.Prelude.Table.{Table, find, find-put, find-drop, int_eqb_iff, indices}
use grokcli2api_go.Prelude.Text.{trim_space, join_text}
use grokcli2api_go.Server.Execution.Commit.{add_token}
use grokcli2api_go.Server.Execution.Collector.{
  Collector, collect, collect_all, finish_signature, write_signature, finish_all, sort_indices,
  insert_index, tokens_of,
}

has-add_token_self : (t : String) (ts : List String) → t ≢ "" → has t (add_token t ts) ≡ true
unfolding has
has-add_token_self t ts n = ground (arith, n, eq_iff t "", eq_refl t, has-append t ts (t ∷ []))

has-add_token : (k t : String) (ts : List String) → has k ts ≡ true → has k (add_token t ts) ≡ true
has-add_token k t ts h = ground (arith, h, has-append k ts (t ∷ []))

-- A token that was collected stays.
abbrev pub Grows : Collector → Collector → Type 0
Grows c c' = (k : String) → has k c.tokens ≡ true → has k c'.tokens ≡ true

collect-Grows : (t : String) (c : Collector) → Grows c (collect t c)
unfolding collect
collect-Grows t c k h = has-add_token k (trim_space t) c.tokens h

pub collect_all-Grows : (ts : List String) (c : Collector) → Grows c (collect_all ts c)
collect_all-Grows [] c k h = h
collect_all-Grows (t ∷ ts) c k h = collect_all-Grows ts (collect t c) k (collect-Grows t c k h)

pub finish_signature-Grows : (i : ℤ) (c : Collector) → Grows c (finish_signature i c)
unfolding finish_signature
finish_signature-Grows i c k h =
    option_both (λ (r : Collector). has k r.tokens ≡ true) (find i c.signatures) _ _ h
      (λ text. collect-Grows text _ k h)

finish_all-Grows : (is : List ℤ) (c : Collector) → Grows c (finish_all is c)
unfolding finish_all
finish_all-Grows [] c k h = h
finish_all-Grows (i ∷ is) c k h =
    finish_all-Grows is (finish_signature i c) k (finish_signature-Grows i c k h)

pub write_signature-Grows :
    (i : ℤ) (text : String) (c : Collector) → Grows c (write_signature i text c)
unfolding write_signature
write_signature-Grows i text c k h = h

-- Ending a signature collects its text.
pub finish_signature-has :
    (i : ℤ) (c : Collector) (text : String)
    → find i c.signatures ≡ some text
    → trim_space text ≢ ""
    → has (trim_space text) (finish_signature i c).tokens ≡ true
unfolding finish_signature collect
finish_signature-has i c text h n =
    rw (finish_signature, h) (has-add_token_self (trim_space text) c.tokens n)

pub find-finish_signature :
    (i j : ℤ) (c : Collector)
    → find j (finish_signature i c).signatures ≡ (if int_eqb i j then none else find j c.signatures)
unfolding finish_signature collect
find-finish_signature i j c =
    option_both
      (λ (r : Collector). find j r.signatures ≡ (if int_eqb i j then none else find j c.signatures))
      (find i c.signatures) _ _ (find-drop i j c.signatures) (λ text. find-drop i j c.signatures)

pub find-write_signature :
    (i j : ℤ) (text : String) (c : Collector)
    → find j (write_signature i text c).signatures ≡ (
        if int_eqb i j
        then some (join_text (with_option (find i c.signatures) "" (λ s. s)) text)
        else find j c.signatures)
unfolding write_signature
find-write_signature i j text c = find-put i j _ c.signatures

-- The signatures that are open at the end are collected as well.
abbrev has_index : ℤ → List ℤ → Bool
has_index i [] = false
has_index i (j ∷ js) = int_eqb j i || has_index i js

has_index-insert_index :
    (i j : ℤ) (js : List ℤ) → has_index i (insert_index j js) ≡ (int_eqb j i || has_index i js)
unfolding insert_index
has_index-insert_index i j [] = refl
has_index-insert_index i j (k ∷ ks) = ground (arith, has_index-insert_index i j ks)

has_index-sort_indices : (i : ℤ) (js : List ℤ) → has_index i (sort_indices js) ≡ has_index i js
unfolding sort_indices
has_index-sort_indices i [] = refl
has_index-sort_indices i (j ∷ js) =
    has_index-insert_index i j (sort_indices js)
    ∙ ap (λ b. int_eqb j i || b) (has_index-sort_indices i js)

has_index-indices :
    (i : ℤ) (m : Table String) (text : String)
    → find i m ≡ some text
    → has_index i (indices m) ≡ true
unfolding find
has_index-indices i [] text h = cc
has_index-indices i ((j, v) ∷ m) text h = ground (arith, h, has_index-indices i m text)

finish_all-has :
    (i : ℤ) (is : List ℤ) (c : Collector) (text : String)
    → has_index i is ≡ true
    → find i c.signatures ≡ some text
    → trim_space text ≢ ""
    → has (trim_space text) (finish_all is c).tokens ≡ true
unfolding finish_all
finish_all-has i [] c text m h n = absurd (false≢true m)
finish_all-has i (j ∷ js) c text m h n = elim (Bool-cases (int_eqb j i)) [
  | inl same ↦ finish_all-Grows js (finish_signature j c) (trim_space text) (
      finish_signature-has j c text (ap (λ k. find k c.signatures) ((int_eqb_iff j i).0 same) ∙ h)
        n)
  | inr other ↦
      finish_all-has i js (finish_signature j c) text (ground (arith, other, m))
        (find-finish_signature j i c ∙ rw other h) n
]

pub tokens_of-Grows :
    (c : Collector) (k : String) → has k c.tokens ≡ true → has k (tokens_of c) ≡ true
unfolding tokens_of
tokens_of-Grows c = finish_all-Grows (sort_indices (indices c.signatures)) c

pub tokens_of-has :
    (i : ℤ) (c : Collector) (text : String)
    → find i c.signatures ≡ some text
    → trim_space text ≢ ""
    → has (trim_space text) (tokens_of c) ≡ true
unfolding tokens_of
tokens_of-has i c text h =
    finish_all-has i (sort_indices (indices c.signatures)) c text
      (has_index-sort_indices i (indices c.signatures) ∙ has_index-indices i c.signatures text h) h
