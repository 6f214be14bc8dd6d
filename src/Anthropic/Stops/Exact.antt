-- ===== src/Anthropic/Stops/Exact.antt =====
-- What comes out of the filter over a whole stream of pieces: the text itself, or the text before the
-- first occurrence of a stop sequence.
use grokcli2api_go.Prelude.{
  ℕ, ◌-◌, ◌≡◌, refl, ap, sym, ◌∙◌, subst, true, false, none, some, List, [], ◌∷◌, ◌++◌, arith,
  length, is_nil, Option-cases, inl, inr, ◌⊎◌, All, All-imp, All-zip, any,
}
use mathlib.Core.List.{append_assoc, append-nil}
use grokcli2api_go.Anthropic.Stops.{
  Text, take, drop, begins, same_text, index_of, earliest, hold_all, StopFilter, new_stop_filter,
  push, flush,
}
use grokcli2api_go.Anthropic.Stops.Search.{
  index_of-drop, index_of-begins, index_of-splits, take-drop, length-drop,
}
use grokcli2api_go.Anthropic.Stops.Held.{
  Misses, hold_all-max, hold_all-bound, Cut, Cut-suffix, Cut-append, Cut-move,
}
use grokcli2api_go.Anthropic.Stops.First.{
  Clear, Cut-Clear, Clear-move, Clear-index_of, index_of-rest, NotBefore, NotBefore-Clear,
  earliest-none, earliest-first, earliest-some,
}

-- Push for each piece, then Flush: the text emitted.
unfoldable pub send : StopFilter → List Text → StopFilter × Text
unfolding push flush
send f [] = flush f
send f (v ∷ vs) =
    let pushed = push f v in let rest = send pushed.0 vs in (rest.0, pushed.1 ++ rest.1)

abbrev pub concat : List Text → Text
concat [] = []
concat (v ∷ vs) = v ++ concat vs

-- The text e was emitted, the text r was not; no sequence starts in e.
abbrev pub FirstAt : List Text → Text → Text → Text → Text → Type 0
FirstAt ss t e m r =
    (e ++ (m ++ r) ≡ t) × (any (λ s. same_text s m) ss ≡ true) × All (λ s. Clear s e (m ++ r)) ss

-- A filter that has not matched, after it emitted e.
abbrev Waits : StopFilter → Text → Type 0
Waits f e =
    (f.matched ≡ [])
    × (is_nil f.sequences ≡ false)
    × All (λ s. Cut s e f.pending × (index_of s f.pending ≡ none)) f.sequences

-- One piece, no match.
module _ (ss : List Text) (e p v : Text) where
  abbrev whole : Text
  whole = p ++ v

  abbrev emit_at : ℕ
  emit_at = length whole - hold_all ss whole 0

  held : length (drop emit_at whole) ≡ hold_all ss whole 0
  held = omega (arith, length-drop emit_at whole, hold_all-bound ss whole 0 (omega arith))

  abbrev Kept : Text → Type 0
  Kept s =
      Cut s (e ++ take emit_at whole) (drop emit_at whole)
      × (index_of s (drop emit_at whole) ≡ none)

  Kept-one :
      (s : Text)
      → Cut s e p
      → index_of s whole ≡ none
      → Misses whole (hold_all ss whole 0) s
      → Kept s
  Kept-one s cut absent misses =
      let split = take-drop emit_at whole in
      let around = subst (λ (w : Text). Cut s e w) (sym split) (Cut-append s e p v cut) in
      let absent = subst (λ (w : Text). index_of s w ≡ none) (sym split) absent in
      let misses =
        subst (λ (w : Text). Misses w (length (drop emit_at whole)) s) (sym split)
          (subst (λ k. Misses whole k s) (sym held) misses) in
      (
        Cut-move s e (take emit_at whole) (drop emit_at whole) around
            (Cut-suffix s [] (take emit_at whole) (drop emit_at whole) misses absent),
        index_of-rest s (take emit_at whole) (drop emit_at whole) absent,
      )

  Kept-each :
      All (λ s. Cut s e p × (index_of s p ≡ none)) ss → earliest ss whole none ≡ none → All Kept ss
  Kept-each h n =
      All-zip (λ s k (m : Misses whole (hold_all ss whole 0) s). k m) ss
        (All-zip
          (λ s (k : Cut s e p × (index_of s p ≡ none)) (a : index_of s whole ≡ none).
            Kept-one s k.0 a)
          ss h (earliest-none ss whole none n).1)
        (hold_all-max ss whole 0)

  Clear-one :
      (m : Text) (s : Text) (i : ℕ) (r : Text)
      → Cut s e p
      → NotBefore i (index_of s whole)
      → take i whole ++ (m ++ r) ≡ whole
      → drop i whole ≡ m ++ r
      → Clear s (e ++ take i whole) (m ++ r)
  Clear-one m s i r cut before split dropped =
      Clear-move s e (take i whole) (m ++ r)
        (Cut-Clear s e (take i whole ++ (m ++ r))
          (subst (λ (w : Text). Cut s e w) (sym split) (Cut-append s e p v cut)))
        (subst (λ (w : Text). Clear s (take i whole) w) dropped (NotBefore-Clear s whole i before))

  Clear-each :
      (m r : Text) (i : ℕ)
      → All (λ s. Cut s e p × (index_of s p ≡ none)) ss
      → earliest ss whole none ≡ some (i, m)
      → take i whole ++ (m ++ r) ≡ whole
      → drop i whole ≡ m ++ r
      → All (λ s. Clear s (e ++ take i whole) (m ++ r)) ss
  Clear-each m r i h found split dropped =
      All-zip
        (λ s (k : Cut s e p × (index_of s p ≡ none)) (b : NotBefore i (index_of s whole)).
          Clear-one m s i r k.0 b split dropped)
        ss h (earliest-first ss whole m i found)

-- How a stream of pieces that is the text t ends: nothing matched, the text came out whole and no sequence
-- is in it; or m matched, the text before its first occurrence came out, and no sequence starts earlier.
abbrev pub Outcome : List Text → Text → Text → Text → Type 0
Outcome ss t e m =
    ((m ≡ []) × (e ≡ t) × All (λ s. index_of s t ≡ none) ss)
    ⊎ ((r : Text) × (later : Text) × ((e ++ (m ++ r)) ++ later ≡ t)
        × (any (λ s. same_text s m) ss ≡ true)
        × All (λ s. Clear s e (m ++ r)) ss)

send-matched :
    (f : StopFilter) (vs : List Text)
    → is_nil f.sequences ≡ false
    → is_nil f.matched ≡ false
    → send f vs ≡ (f, [])
unfolding send push flush
send-matched f [] n m = rw m refl
send-matched f (v ∷ vs) n m = rw (n, m, send-matched f vs n m) refl

-- Only a sequence that is empty is found in a text that has none of them.
any-nil :
    (ss : List Text) (p m : Text)
    → All (λ s. index_of s p ≡ none) ss
    → any (λ s. same_text s m) ss ≡ true
    → is_nil m ≡ false
unfolding any same_text begins
any-nil [] p m h a = cc
any-nil ss p (c ∷ m) h a = refl
any-nil ([] ∷ ss) p [] h a = (let bad : true ≡ false = index_of-begins [] p h.0 in cc)
any-nil ((d ∷ s) ∷ ss) p [] h a = any-nil ss p [] h.1 a

module _ (f : StopFilter) (e v : Text) (w : Waits f e) where
  abbrev seen : Text
  seen = f.pending ++ v

  abbrev out_at : ℕ
  out_at = length seen - hold_all f.sequences seen 0

  push-none :
      earliest f.sequences seen none ≡ none
      → push f v ≡ (record f { pending = drop out_at seen }, take out_at seen, [])
  unfolding push
  push-none n = rw (w.1, ap is_nil w.0, n) refl

  push-some :
      (i : ℕ) (m : Text)
      → earliest f.sequences seen none ≡ some (i, m)
      → push f v ≡ (record f { pending = []; matched = m }, take i seen, m)
  unfolding push
  push-some i m n = rw (w.1, ap is_nil w.0, n) refl

  push-Waits :
      earliest f.sequences seen none ≡ none
      → Waits (record f { pending = drop out_at seen }) (e ++ take out_at seen)
  push-Waits n = (w.0, w.1, Kept-each f.sequences e f.pending v w.2 n)

  rest-text :
      (c : Text) → (e ++ take out_at seen) ++ (drop out_at seen ++ c) ≡ e ++ (f.pending ++ (v ++ c))
  rest-text c =
      append_assoc e (take out_at seen) (drop out_at seen ++ c)
      ∙ ap (λ x. e ++ x)
          (sym (append_assoc (take out_at seen) (drop out_at seen) c)
            ∙ ap (λ x. x ++ c) (take-drop out_at seen)
            ∙ append_assoc f.pending v c)

  found-Outcome :
      (i : ℕ) (m c : Text)
      → earliest f.sequences seen none ≡ some (i, m)
      → Outcome f.sequences (e ++ (f.pending ++ (v ++ c))) (e ++ (take i seen ++ [])) m
  found-Outcome i m c n =
      let found = earliest-some f.sequences seen m i n in
      let r = drop (length m) (drop i seen) in
      let split = index_of-splits m seen i found.1 in
      let dropped = sym (index_of-drop m seen i found.1) in
      inr (
        r,
        c,
        ap (λ x. ((e ++ x) ++ (m ++ r)) ++ c) (append-nil (take i seen))
            ∙ ap (λ x. x ++ c) (append_assoc e (take i seen) (m ++ r))
            ∙ append_assoc e (take i seen ++ (m ++ r)) c
            ∙ ap (λ x. e ++ x) (ap (λ x. x ++ c) split ∙ append_assoc f.pending v c),
        found.0,
        rw (append-nil (take i seen))
            (Clear-each f.sequences e f.pending v m r i w.2 n split dropped),
      )

Outcome-subst :
    (ss : List Text) (t u e d m : Text) → t ≡ u → e ≡ d → Outcome ss t e m → Outcome ss u d m
Outcome-subst ss t u e d m p q h =
    subst (λ (x : Text). Outcome ss x d m) p (subst (λ (x : Text). Outcome ss t x m) q h)

send-Outcome :
    (f : StopFilter) (vs : List Text) (e : Text)
    → Waits f e
    → Outcome f.sequences (e ++ (f.pending ++ concat vs)) (e ++ (send f vs).1) (send f vs).0.matched
unfolding send flush
send-Outcome f [] e w =
    let p = f.pending in
    rw (w.0, append-nil p)
      (inl (
        refl,
        refl,
        All-imp
            (λ s (k : Cut s e p × (index_of s p ≡ none)).
              Clear-index_of s e p (Cut-Clear s e p k.0) k.1)
            f.sequences w.2,
      ))
send-Outcome f (v ∷ vs) e w = elim (Option-cases (earliest f.sequences (f.pending ++ v) none)) [
  | inr found ↦
      let m = found.0.1 in
      let matched = earliest-some f.sequences (f.pending ++ v) m found.0.0 found.1 in
      let after = record f { pending = []; matched = m } in
      let absent =
        All-imp (λ s (k : Cut s e f.pending × (index_of s f.pending ≡ none)). k.1) f.sequences
          w.2 in
      rw
        (
          push-some f e v w found.0.0 m found.1,
          send-matched after vs w.1 (any-nil f.sequences f.pending m absent matched.0),
        )
        (found-Outcome f e v w found.0.0 m (concat vs) found.1)
  | inl absent ↦
      let at = out_at f e v w in
      let text = f.pending ++ v in
      let after = record f { pending = drop at text } in
      rw (push-none f e v w absent) (
        Outcome-subst f.sequences _ _ _ _ (send after vs).0.matched (rest-text f e v w (concat vs))
          (append_assoc e (take at text) (send after vs).1)
          (send-Outcome after vs (e ++ take at text) (push-Waits f e v w absent)))
]

nonempty_absent : (s : Text) → is_nil s ≡ false → index_of s [] ≡ none
unfolding index_of begins
nonempty_absent [] h = cc
nonempty_absent (c ∷ s) h = refl

new-Waits :
    (ss : List Text)
    → is_nil ss ≡ false
    → All (λ (s : Text). is_nil s ≡ false) ss
    → Waits (new_stop_filter ss) []
unfolding new_stop_filter
new-Waits ss n h = (refl, n, All-imp (λ s k. (tt, nonempty_absent s k)) ss h)

-- For stop sequences that are not empty, at least one, and a text that comes in any pieces: either nothing
-- matches, exactly the text is emitted and no stop sequence occurs in it; or one of the stop sequences
-- matches, what is emitted is the text before an occurrence of it, and no stop sequence starts earlier
-- in the text read up to the match.
pub send-exact :
    (ss : List Text) (pieces : List Text)
    → is_nil ss ≡ false
    → All (λ (s : Text). is_nil s ≡ false) ss
    → Outcome ss
        (concat pieces)
        (send (new_stop_filter ss) pieces).1
        (send (new_stop_filter ss) pieces).0.matched
unfolding new_stop_filter
send-exact ss pieces n h = send-Outcome (new_stop_filter ss) pieces [] (new-Waits ss n h)
