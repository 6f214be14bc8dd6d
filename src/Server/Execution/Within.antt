-- ===== src/Server/Execution/Within.antt =====
-- The store after a lookup has nothing that the store before it did not have.
use mathlib.Core.Option.{some-injective}
use grokcli2api_go.Prelude.{
  ℕ, ◌<◌, String, ◌≡◌, refl, sym, subst, ◌∙◌, true, Option, none, some, arith, ◌==◌, eq_iff,
  if_both, if_then, if_else, Bool-cases, inl, inr,
}
use grokcli2api_go.Prelude.Map.{lookup, insert, remove, lookup-insert, lookup-remove}
use grokcli2api_go.Pool.{Affinity, Digest}
use grokcli2api_go.Continuity.{
  Binding, Store, continuity_key, is_live, look_at, lookup_binding, renewed, changed,
}
use grokcli2api_go.Server.Execution.{same_route}

none_differs : (c : Binding) → Path (Option Binding) none (some c) → ⊥
none_differs c h = cc

module _ (now : ℕ) where
  -- A binding of a store that has not expired, of the route of `c`.
  abbrev pub Has : Store → String → Binding → Type 0
  Has s k c =
      (b : Binding) × (lookup k s.bindings ≡ some b)
      × (now < b.expires_at)
      × ((r : Binding) → same_route r c ≡ true → same_route r b ≡ true)

  -- What the later store has, the earlier one has.
  abbrev pub Within : Store → Store → Type 0
  Within s s' =
      (k : String) (c : Binding) → lookup k s'.bindings ≡ some c → now < c.expires_at → Has s k c

  pub Within-refl : (s : Store) → Within s s
  Within-refl s k c h l = (c, h, l, λ r e. e)

  pub Within-compose : (s t u : Store) → Within s t → Within t u → Within s u
  Within-compose s t u f g k c h l =
      let middle = g k c h l in
      let first = f k middle.0 middle.1 middle.2 in
      (first.0, first.1, first.2, λ r e. first.3 r (middle.3 r e))

  renewed-Has :
      (key : String) (s : Store) (b : Binding)
      → lookup key s.bindings ≡ some b
      → now < b.expires_at
      → Has s key (renewed s now b)
  unfolding same_route
  renewed-Has key s b h l = (b, h, l, λ r e. e)

  insert-Within :
      (key : String) (s : Store) (b : Binding)
      → lookup key s.bindings ≡ some b
      → now < b.expires_at
      → Within s (changed s (insert key (renewed s now b) s.bindings))
  insert-Within key s b h l k c e m =
      let at = lookup-insert key k (renewed s now b) s.bindings in
      elim (Bool-cases (key == k)) [
        | inl same ↦
            let here = sym at ∙ e in
            let chosen : renewed s now b ≡ c = some-injective _ c (
              if_then (λ o. o ≡ some c → some (renewed s now b) ≡ some c) (key == k) _ _ same
                (λ x. x) here) in
            subst (λ (x : Binding). Has s k x) chosen
              (subst (λ x. Has s x (renewed s now b)) ((eq_iff key k).0 same)
                (renewed-Has key s b h l))
        | inr other ↦
            let here = sym at ∙ e in
            (
              c,
              if_else (λ o. o ≡ some c → lookup k s.bindings ≡ some c) (key == k)
                  (some (renewed s now b)) (lookup k s.bindings) other (λ x. x) here,
              m,
              λ r x. x,
            )
      ]

  remove-Within : (key : String) (s : Store) → Within s (changed s (remove key s.bindings))
  remove-Within key s k c e m =
      let here = sym (lookup-remove key k s.bindings) ∙ e in
      elim (Bool-cases (key == k)) [
        | inl same ↦ absurd (
            none_differs c (
              if_then (λ o. o ≡ some c → none ≡ some c) (key == k) none (lookup k s.bindings) same
                (λ x. x) here))
        | inr other ↦ (
          c,
          if_else (λ o. o ≡ some c → lookup k s.bindings ≡ some c) (key == k) none
              (lookup k s.bindings) other (λ x. x) here,
          m,
          λ r x. x,
        )
      ]

  look_at-Within :
      (key : String) (s : Store) (o : Option Binding)
      → lookup key s.bindings ≡ o
      → Within s (look_at now key s o).0
        × ((c : Binding) → (look_at now key s o).1 ≡ some c → Has s key c)
  look_at-Within key s none h = (Within-refl s, λ c e. cc)
  look_at-Within key s (some b) h = elim (Bool-cases (is_live now b)) [
    | inl live ↦
        let l : now < b.expires_at = ground (arith, live) in
        if_then
          (λ (r : Store × Option Binding).
            Within s r.0 × ((c : Binding) → r.1 ≡ some c → Has s key c))
          (is_live now b)
          (changed s (insert key (renewed s now b) s.bindings), some (renewed s now b))
          (changed s (remove key s.bindings), none) live
          (
            insert-Within key s b h l,
            λ c e.
                subst (λ (x : Binding). Has s key x) (some-injective (renewed s now b) c e)
                  (renewed-Has key s b h l),
          )
    | inr dead ↦
        if_else
          (λ (r : Store × Option Binding).
            Within s r.0 × ((c : Binding) → r.1 ≡ some c → Has s key c))
          (is_live now b)
          (changed s (insert key (renewed s now b) s.bindings), some (renewed s now b))
          (changed s (remove key s.bindings), none) dead (remove-Within key s, λ c e. cc)
  ]

  pub lookup_binding-Within :
      (d : Digest) (tenant : String) (affinity : Affinity) (model : String) (s : Store)
      → let looked = lookup_binding d now tenant affinity model s in
        Within s looked.0
        × ((c : Binding) → looked.2 ≡ some c → Has s (continuity_key d tenant affinity model) c)
  unfolding lookup_binding
  lookup_binding-Within d tenant affinity model s =
      let key = continuity_key d tenant affinity model in
      let at = look_at now key s (lookup key s.bindings) in
      if_both
        (λ (r : Store × String × Option Binding).
          Within s r.0 × ((c : Binding) → r.2 ≡ some c → Has s key c))
        (key == "") (s, "", none) (at.0, key, at.1) (Within-refl s, λ c e. cc)
        (look_at-Within key s (lookup key s.bindings) refl)
