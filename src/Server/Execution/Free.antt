-- ===== src/Server/Execution/Free.antt =====
-- A prepared execution that is pinned to no account.
use grokcli2api_go.Prelude.{
  String, ◌≡◌, refl, ◌∙◌, false, not, none, some, List, [], ◌==◌, if◌then◌else◌, if_both,
  option_both, Option-cases, inl, inr,
}
use grokcli2api_go.Server.Execution.{Planner, Lookup, Execution, preserved_handles}
use grokcli2api_go.Server.Execution.Prepare.{
  bind_later, public_execution, fresh_execution, prepare_fresh,
}
use grokcli2api_go.Server.Execution.Lookups.{refused_state, carried_state}
use grokcli2api_go.Server.Execution.Owned.{carried, Given, refused_state-none}

module _ {Plan : Type 0} (planner : Planner Plan) where
  -- The execution is free, and no route of its model carries any of the state.
  abbrev pub IsFree : Plan → List Lookup → Execution Plan → Type 0
  IsFree plan state x =
      (x.pinned ≡ "") × (x.plan ≡ plan) × (carried (preserved_handles planner plan) state ≡ [])

  abbrev Same : Execution Plan → Execution Plan → Type 0
  Same x y = (y.pinned ≡ x.pinned) × (y.plan ≡ x.plan)

  public_execution-Same :
      (x : Execution Plan) (state : List Lookup) (keys : List String)
      → Same x (public_execution planner x state keys)
  unfolding public_execution
  public_execution-Same x state keys =
      option_both (Same x) (carried_state keys state) x
        (λ item.
          bind_later planner x item.affinity
            (record { key = item.key; affinity = item.affinity; state = some item.handle }))
        (refl, refl) (λ item. (refl, refl))

  fresh_execution-Same :
      (x : Execution Plan) (session : Lookup) (state : List Lookup) (keys : List String)
      → Same x (fresh_execution planner x session state keys)
  unfolding fresh_execution
  fresh_execution-Same x session state keys =
      if_both (Same x) (not (session.affinity.key == ""))
        (bind_later planner x session.affinity
          (record { key = session.key; affinity = session.affinity; state = none }))
        (if x.tenant == "public" then public_execution planner x state keys else x) (refl, refl)
        (if_both (Same x) (x.tenant == "public") (public_execution planner x state keys) x
          (public_execution-Same x state keys) (refl, refl))

  pub prepare_fresh-IsFree :
      (execution : Execution Plan) (session : Lookup) (state : List Lookup)
      → (execution.tenant == "public") ≡ false
      → execution.pinned ≡ ""
      → Given
          (prepare_fresh planner execution session state (preserved_handles planner execution.plan))
          (IsFree execution.plan state)
  unfolding prepare_fresh
  prepare_fresh-IsFree execution session state t p =
      elim (Option-cases
        (refused_state execution.tenant (preserved_handles planner execution.plan) state)) [
          | inr refused ↦ rw (prepare_fresh, refused.1) tt
          | inl allowed ↦
              let keys = preserved_handles planner execution.plan in
              let same = fresh_execution-Same execution session state keys in
              rw (prepare_fresh, allowed)
                (same.0 ∙ p, same.1, refused_state-none execution.tenant keys state t allowed)
        ]
