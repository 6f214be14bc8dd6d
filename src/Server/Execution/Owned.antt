-- ===== src/Server/Execution/Owned.antt =====
-- The state that a request carries and the store knows on its route.
use grokcli2api_go.Prelude.{
  String, ◌≡◌, refl, true, false, none, some, List, [], ◌∷◌, ◌==◌, has, All, select, Bool-cases,
  Option-cases, ◌⊎◌, inl, inr,
}
use grokcli2api_go.Prelude.Map.{found}
use grokcli2api_go.Continuity.{Binding}
use grokcli2api_go.Server.Execution.{Failure, Lookup, handle_key, same_route}
use grokcli2api_go.Server.Execution.Lookups.{bound_lookups, refused_state}

-- The handles that a request carries, of those looked up.
abbrev pub carried : List String → List Lookup → List Lookup
carried keys state = select (λ item. has (handle_key item.handle) keys) state

-- The store knows the handle, on the route of the binding.
abbrev pub IsOwned : Binding → Lookup → Type 0
IsOwned b item = (c : Binding) × (item.found ≡ some c) × (same_route b c ≡ true)

-- One of the lookups found the binding.
abbrev pub Knows : List Lookup → Binding → Type 0
Knows [] b = ⊥
Knows (item ∷ state) b = (item.found ≡ some b) ⊎ Knows state b

-- What holds of a result, if there is one.
abbrev pub Given {ℓ κ} : {A : Type ℓ} → Failure ⊎ A → (A → Type κ) → Type κ
Given (inl failure) P = Unit
Given (inr a) P = P a

Given-cons :
    (o : Failure ⊎ List Lookup) (item : Lookup) (X Y : Type 0)
    → X
    → Given o (λ bound. Y)
    → Given (elim o [ inl failure ↦ inl failure | inr bound ↦ inr (item ∷ bound) ]) (λ bound. X × Y)
Given-cons (inl failure) item X Y h k = tt
Given-cons (inr bound) item X Y h k = (h, k)

pub bound_lookups-IsOwned :
    (tenant : String) (b : Binding) (keys : List String) (state : List Lookup)
    → (tenant == "public") ≡ false
    → Given (bound_lookups tenant b keys state) (λ bound. All (IsOwned b) (carried keys state))
unfolding bound_lookups
bound_lookups-IsOwned tenant b keys [] t = tt
bound_lookups-IsOwned tenant b keys (item ∷ state) t =
    let rest = bound_lookups-IsOwned tenant b keys state t in
    elim (Bool-cases (has (handle_key item.handle) keys)) [
      | inr left ↦ rw (bound_lookups, left) rest
      | inl kept ↦ elim (Option-cases item.found) [
        | inl unknown ↦ rw (bound_lookups, kept, unknown, t) tt
        | inr known ↦ elim (Bool-cases (same_route b known.0)) [
          | inr other ↦ rw (bound_lookups, kept, known.1, other) tt
          | inl same ↦
              rw (bound_lookups, kept, known.1, same)
                (Given-cons (bound_lookups tenant b keys state) item _ _ (known.0, refl, same) rest)
        ]
      ]
    ]

pub refused_state-none :
    (tenant : String) (keys : List String) (state : List Lookup)
    → (tenant == "public") ≡ false
    → refused_state tenant keys state ≡ none
    → carried keys state ≡ []
unfolding refused_state
refused_state-none tenant keys [] t h = refl
refused_state-none tenant keys (item ∷ state) t h =
    elim (Bool-cases (has (handle_key item.handle) keys)) [
      | inr left ↦ rw left (refused_state-none tenant keys state t (rw (refused_state, left) at h))
      | inl kept ↦ elim (Bool-cases (found item.found)) [
        | inl known ↦ (let h = rw (refused_state, kept, known) at h in cc)
        | inr unknown ↦ (let h = rw (refused_state, kept, unknown, t) at h in cc)
      ]
    ]
