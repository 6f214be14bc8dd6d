-- ===== src/Prelude/Table.antt =====
-- Go maps with keys of type int, as association lists.
use Prim.Native.Nat.{ℕ}
use mathlib.Core.Path.{◌≡◌, ap}
use mathlib.Core.Logic.{◌↔◌}
use mathlib.Core.Bool.{true, false≢true}
use mathlib.Core.Option.{Option, none, some}
use mathlib.Core.List.{List, [], ◌∷◌}
use native.Mathlib.Omega.{arith}
use grokcli2api_go.Prelude.Tests.{if◌then◌else◌}
use grokcli2api_go.Prelude.Int.{ℤ, pos, negsuc, int_eqb}

abbrev magnitude : ℤ → ℕ
magnitude (pos n) = n
magnitude (negsuc n) = n

pub int_eqb_iff : (a b : ℤ) → (int_eqb a b ≡ true) ↔ (a ≡ b)
int_eqb_iff (pos a) (pos b) =
    (λ h. ap pos (ground (arith, h)), λ e. (let same = ap magnitude e in ground (arith, same)))
int_eqb_iff (pos a) (negsuc b) = (λ h. absurd (false≢true h), λ e. cc)
int_eqb_iff (negsuc a) (pos b) = (λ h. absurd (false≢true h), λ e. cc)
int_eqb_iff (negsuc a) (negsuc b) =
    (λ h. ap negsuc (ground (arith, h)), λ e. (let same = ap magnitude e in ground (arith, same)))

abbrev pub Table {ℓ} : Type ℓ → Type ℓ
Table V = List (ℤ × V)

module _ {ℓ} {V : Type ℓ} where
  -- v, ok := m[i]
  unfoldable pub find : ℤ → Table V → Option V
  find i [] = none
  find i ((j, v) ∷ m) = if int_eqb j i then some v else find i m

  -- delete(m, i)
  unfoldable pub drop : ℤ → Table V → Table V
  drop i [] = []
  drop i ((j, v) ∷ m) = let rest = drop i m in if int_eqb j i then rest else (j, v) ∷ rest

  -- m[i] = v
  unfoldable pub put : ℤ → V → Table V → Table V
  put i v m = (i, v) ∷ drop i m

  abbrev pub indices : Table V → List ℤ
  indices [] = []
  indices ((i, v) ∷ m) = i ∷ indices m

  pub find-drop :
      (i j : ℤ) (m : Table V) → find j (drop i m) ≡ (if int_eqb i j then none else find j m)
  unfolding find drop
  find-drop i j [] = ground arith
  find-drop i j ((k, v) ∷ m) =
      ground (arith, find-drop i j m, int_eqb_iff k i, int_eqb_iff k j, int_eqb_iff i j)

  pub find-put :
      (i j : ℤ) (v : V) (m : Table V)
      → find j (put i v m) ≡ (if int_eqb i j then some v else find j m)
  unfolding find put
  find-put i j v m = ground (arith, find-drop i j m)
