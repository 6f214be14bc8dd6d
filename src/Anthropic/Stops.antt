-- ===== src/Anthropic/Stops.antt =====
-- streamStopFilter of internal/anthropic/stream.go: stop sequences in a text that comes in pieces. Sizes
-- count characters; the source counts the bytes of texts that hold whole characters only, and compares
-- them in the same order.
pub mod Search
pub mod Held
pub mod First
pub mod Exact
use Prim.Native.Char.{Char}
use grokcli2api_go.Prelude.{
  ℕ, zero, suc, ◌+◌, ◌-◌, String, Bool, true, false, not, ◌&&◌, Option, none, some, List, [], ◌∷◌,
  ◌++◌, ◌==◌, if◌then◌else◌, ltb, leb, length, is_nil,
}

abbrev pub Text : Type 0
Text = List Char

abbrev pub take {ℓ} : {A : Type ℓ} → ℕ → List A → List A
take zero xs = []
take (suc n) [] = []
take (suc n) (x ∷ xs) = x ∷ take n xs

abbrev pub drop {ℓ} : {A : Type ℓ} → ℕ → List A → List A
drop zero xs = xs
drop (suc n) [] = []
drop (suc n) (x ∷ xs) = drop n xs

abbrev pub same_char : Char → Char → Bool
same_char c d = String.◌∷◌ c String.[] == String.◌∷◌ d String.[]

-- strings.HasPrefix(t, s)
unfoldable pub begins : Text → Text → Bool
begins [] t = true
begins (c ∷ s) [] = false
begins (c ∷ s) (d ∷ t) = same_char c d && begins s t

unfoldable pub same_text : Text → Text → Bool
same_text [] [] = true
same_text [] (d ∷ t) = false
same_text (c ∷ s) [] = false
same_text (c ∷ s) (d ∷ t) = same_char c d && same_text s t

-- strings.HasSuffix(t, p)
unfoldable pub ends : Text → Text → Bool
unfolding same_text
ends t p = leb (length p) (length t) && same_text (drop (length t - length p) t) p

abbrev pub one_later : Option ℕ → Option ℕ
one_later none = none
one_later (some i) = some (suc i)

-- strings.Index(t, s)
unfoldable pub index_of : Text → Text → Option ℕ
unfolding begins
index_of s [] = if begins s [] then some 0 else none
index_of s (c ∷ t) =
    let later = index_of s t in if begins s (c ∷ t) then some 0 else one_later later

pub record StopFilter : Type 0 where
  pub sequences : List Text
  pub pending : Text
  pub matched : Text

unfoldable pub new_stop_filter : List Text → StopFilter
new_stop_filter sequences = record { sequences = sequences; pending = []; matched = [] }

abbrev pub earlier : Option ℕ → Text → Option (ℕ × Text) → Option (ℕ × Text)
earlier none s best = best
earlier (some i) s none = some (i, s)
earlier (some i) s (some (j, m)) = if ltb i j then some (i, s) else some (j, m)

-- The first loop of Push: the earliest occurrence of a sequence, and of two at one place the first.
unfoldable pub earliest : List Text → Text → Option (ℕ × Text) → Option (ℕ × Text)
unfolding index_of
earliest [] t best = best
earliest (s ∷ ss) t best = earliest ss t (earlier (index_of s t) s best)

-- The inner loop over `size`, down from the limit while it is above `hold`.
unfoldable pub hold_for : Text → Text → ℕ → ℕ → ℕ
unfolding ends
hold_for s t hold zero = hold
hold_for s t hold (suc n) =
    let smaller = hold_for s t hold n in
    if not (ltb hold (suc n)) then hold else if ends t (take (suc n) s) then suc n else smaller

abbrev pub size_limit : Text → Text → ℕ
size_limit s t = if ltb (length t) (length s - 1) then length t else length s - 1

-- How many characters at the end could begin a sequence.
unfoldable pub hold_all : List Text → Text → ℕ → ℕ
unfolding hold_for
hold_all [] t hold = hold
hold_all (s ∷ ss) t hold = hold_all ss t (hold_for s t hold (size_limit s t))

-- What Push does with the text when no sequence has matched before.
abbrev pub push_pending : StopFilter → Text → Option (ℕ × Text) → StopFilter × Text × Text
push_pending f t (some (i, s)) = (record f { pending = []; matched = s }, take i t, s)
push_pending f t none =
    let emit_at = length t - hold_all f.sequences t 0 in
    (record f { pending = drop emit_at t }, take emit_at t, [])

-- Push: the text to emit and the sequence matched, or none.
unfoldable pub push : StopFilter → Text → StopFilter × Text × Text
unfolding earliest hold_all
push f value =
    let pushed =
      push_pending f (f.pending ++ value) (earliest f.sequences (f.pending ++ value) none) in
    if is_nil f.sequences
    then (f, value, [])
    else if not (is_nil f.matched)
    then (f, [], f.matched)
    else pushed

-- Flush
unfoldable pub flush : StopFilter → StopFilter × Text
flush f = if not (is_nil f.matched) then (f, []) else (record f { pending = [] }, f.pending)
