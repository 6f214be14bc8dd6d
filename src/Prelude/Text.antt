-- ===== src/Prelude/Text.antt =====
-- The functions of Go's `strings` that the program uses, on texts of code points.
use mathlib.Core.Logic.{◌≢◌, inl, inr}
use native.Mathlib.Omega.{arith}
use text.Mathlib.Text.{◌==◌}
use text.Mathlib.TextEquality.{eq_iff}
use Prim.Native.Nat.{ℕ, zero, suc, ◌-◌}
use Prim.Native.Char.{Char, code}
use Prim.Native.String.{String, ◌++◌}
use Prim.Native.String.append
use mathlib.Core.Path.{◌≡◌, refl, ap, sym, ◌∙◌}
use mathlib.Core.Bool.{Bool, true, false, ◌&&◌, ◌||◌, true≢false}
use native.Mathlib.Omega.{arith}
use grokcli2api_go.Prelude.Tests.{ltb, leb, eqb, if◌then◌else◌, Bool-cases}

-- unicode.IsSpace
pub is_space : ℕ → Bool
is_space c =
    (leb 9 c && leb c 13)
    || (eqb c 32
        || (eqb c 0x85
            || (eqb c 0xA0
                || (eqb c 0x1680
                    || ((leb 0x2000 c && leb c 0x200A)
                        || (eqb c 0x2028
                            || (eqb c 0x2029
                                || (eqb c 0x202F || (eqb c 0x205F || eqb c 0x3000)))))))))

pub trim_left : String → String
trim_left String.[] = ""
trim_left (String.◌∷◌ c s) =
    let rest = trim_left s in if is_space (code c) then rest else String.◌∷◌ c s

abbrev is_empty : String → Bool
is_empty String.[] = true
is_empty (String.◌∷◌ c s) = false

-- Drops `c` before an empty rest when it is a space.
abbrev cons_unless_blank : Char → String → String
cons_unless_blank c rest = if is_space (code c) && is_empty rest then "" else String.◌∷◌ c rest

pub trim_right : String → String
trim_right String.[] = ""
trim_right (String.◌∷◌ c s) = cons_unless_blank c (trim_right s)

-- strings.TrimSpace
unfoldable pub trim_space : String → String
unfolding trim_left trim_right is_space
trim_space s = trim_right (trim_left s)

trim_right_idem : (s : String) → trim_right (trim_right s) ≡ trim_right s
unfolding trim_right
trim_right_idem String.[] = refl
trim_right_idem (String.◌∷◌ c s) = ground (arith, trim_right_idem s)

trim_left_idem : (s : String) → trim_left (trim_left s) ≡ trim_left s
unfolding trim_left
trim_left_idem String.[] = refl
trim_left_idem (String.◌∷◌ c s) = ground (arith, trim_left_idem s)

-- A text is left alone from the left when it does not begin with a space.
abbrev starts_solid : String → Bool
starts_solid String.[] = true
starts_solid (String.◌∷◌ c s) = if is_space (code c) then false else true

trim_left-starts_solid : (s : String) → starts_solid (trim_left s) ≡ true
unfolding trim_left
trim_left-starts_solid String.[] = refl
trim_left-starts_solid (String.◌∷◌ c s) = ground (arith, trim_left-starts_solid s)

starts_solid-trim_right : (s : String) → starts_solid s ≡ true → starts_solid (trim_right s) ≡ true
unfolding trim_right
starts_solid-trim_right String.[] h = refl
starts_solid-trim_right (String.◌∷◌ c s) h = ground arith

trim_left_solid : (s : String) → starts_solid s ≡ true → trim_left s ≡ s
unfolding trim_left
trim_left_solid String.[] h = refl
trim_left_solid (String.◌∷◌ c s) h = ground arith

-- Trimming twice is trimming once.
pub trim_space_idem : (s : String) → trim_space (trim_space s) ≡ trim_space s
unfolding trim_space
trim_space_idem s =
    rw
      (trim_left_solid (trim_right (trim_left s))
        (starts_solid-trim_right (trim_left s) (trim_left-starts_solid s)))
      (trim_right_idem (trim_left s))

char_of : ℕ → String → Char → Char
char_of n String.[] other = other
char_of zero (String.◌∷◌ c s) other = c
char_of (suc n) (String.◌∷◌ c s) other = char_of n s other

-- The ASCII part of unicode.ToLower; `other` stands for the Unicode table above it.
pub lower_char : (Char → Char) → Char → Char
unfolding char_of
lower_char other c =
    if leb b'A' (code c) && leb (code c) b'Z'
    then char_of (code c - b'A') "abcdefghijklmnopqrstuvwxyz" c
    else if ltb (code c) 128
    then c
    else other c

-- strings.ToLower
unfoldable pub to_lower : (Char → Char) → String → String
unfolding lower_char
to_lower other String.[] = ""
to_lower other (String.◌∷◌ c s) = String.◌∷◌ (lower_char other c) (to_lower other s)

-- s + t
abbrev pub join_text : String → String → String
join_text s t = s ++ t

-- Texts that compare as different are different.
pub texts_differ : (s t : String) → (s == t) ≡ false → s ≢ t
texts_differ s t h e = absurd (ground (arith, h, (eq_iff s t).1 e))

abbrev starts_empty : String → Bool
starts_empty String.[] = true
starts_empty (String.◌∷◌ c s) = false

-- A text with something before it is not empty.
pub join_text-cons : (c : Char) (s t : String) → (join_text (String.◌∷◌ c s) t == "") ≡ false
join_text-cons c s t = elim (Bool-cases (join_text (String.◌∷◌ c s) t == "")) [
  | inr fine ↦ fine
  | inl bad ↦ absurd (
      true≢false (
        sym (
          ap starts_empty
            (sym (λ i. append.cons c s t i) ∙ (eq_iff (join_text (String.◌∷◌ c s) t) "").0 bad))))
]
