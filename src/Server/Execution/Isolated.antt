-- ===== src/Server/Execution/Isolated.antt =====
-- No state of a request is sent but what the store knows on its route.
use grokcli2api_go.Prelude.{ℕ, String, ◌≡◌, false, List, ◌∷◌, has, All, ◌⊎◌, inr}
use grokcli2api_go.Pool.{Digest}
use grokcli2api_go.Continuity.{Binding, Store}
use grokcli2api_go.Server.Execution.{
  Attempt, Planner, Execution, handle_key, rendered_handles, render_for_binding, preserved_handles,
}
use grokcli2api_go.Server.Execution.Owned.{Knows}
use grokcli2api_go.Server.Execution.Within.{Within}
use grokcli2api_go.Server.Execution.Held.{IsHeld}
use grokcli2api_go.Server.Execution.Bound.{session_of, looked_up}

module _ {Plan : Type 0} (planner : Planner Plan) where
  module _ (d : Digest) (now : ℕ) (tenant header : String) (plan : Plan) (s : Store) where
    abbrev model : String
    model = planner.model plan

    -- Each handle of the request is absent from the keys, or the store has an unexpired binding of it,
    -- of the route of `b`.
    abbrev pub CarriesOwned : Binding → List String → Type 0
    CarriesOwned b keys =
        All
          (λ h. (has (handle_key h) keys ≡ false) ⊎ IsHeld now d tenant (planner.model plan) s b h)
          (planner.state_handles plan)

    -- Pinned to the route of a binding that a lookup found; the request rendered for it carries only
    -- state of the store's, of that route.
    abbrev pub IsOwnedBound : Execution Plan → Type 0
    IsOwnedBound x =
        (b : Binding) × (a : Attempt) × Knows
          (session_of planner d now tenant header plan s
            ∷ (looked_up planner d now tenant header plan s).1)
          b
        × (x.pinned ≡ b.account_id)
        × (x.expected_backend ≡ b.backend)
        × (x.session_id ≡ b.session_id)
        × (render_for_binding planner x.plan b ≡ inr a)
        × CarriesOwned b (rendered_handles planner a)

    -- Pinned to no account; no route of the model carries any state of the request.
    abbrev pub IsStateless : Execution Plan → Type 0
    IsStateless x =
        (x.pinned ≡ "")
        × All (λ h. has (handle_key h) (preserved_handles planner x.plan) ≡ false)
            (planner.state_handles plan)
