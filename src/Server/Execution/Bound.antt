-- ===== src/Server/Execution/Bound.antt =====
-- What a prepared execution may carry of the state of its tenant.
use grokcli2api_go.Prelude.{
  ℕ, String, ◌≡◌, refl, false, Option, none, some, List, [], ◌∷◌, ◌++◌, ◌==◌, if_both, option_known,
  with_option, All, Bool-cases, ◌⊎◌, inl, inr,
}
use grokcli2api_go.Pool.{Affinity, Digest}
use grokcli2api_go.Continuity.{Binding, Store, reserve_turn}
use grokcli2api_go.Server.Execution.{
  Attempt, StateHandle, Planner, Failure, Lookup, Execution, same_route, rendered_handles,
  render_for_binding, preserved_handles,
}
use grokcli2api_go.Server.Execution.Prepare.{
  session_pending, bind_and_reserve, reserved, prepare_bound, try_rendered, new_execution,
  cleaned_plan, select_state, Choice, prepare_fresh, prepare_chosen, prepare_session,
  prepare_inference,
}
use grokcli2api_go.Server.Execution.Lookups.{
  look_up_session, look_up_states, pending_bindings, latest,
}
use grokcli2api_go.Server.Execution.Owned.{carried, IsOwned, Knows, Given, bound_lookups-IsOwned}
use grokcli2api_go.Server.Execution.Free.{IsFree, prepare_fresh-IsFree}

module _ {Plan : Type 0} (planner : Planner Plan) where
  -- The execution is pinned to the account of a binding that one of the lookups found, and the request
  -- rendered for it carries only state that the store knows, on the route of that binding.
  abbrev pub IsBound : Plan → Lookup → List Lookup → Execution Plan → Type 0
  IsBound plan session state x =
      (b : Binding) × (a : Attempt) × Knows (session ∷ state) b
      × (x.pinned ≡ b.account_id)
      × (x.expected_backend ≡ b.backend)
      × (x.session_id ≡ b.session_id)
      × (x.plan ≡ plan)
      × (render_for_binding planner plan b ≡ inr a)
      × All (IsOwned b) (carried (rendered_handles planner a) state)

  reserved-IsBound :
      (execution : Execution Plan) (selected : Lookup) (b : Binding) (a : Attempt)
      (session : Lookup) (state : List Lookup) (r : Store × Option (Binding × ℕ))
      → Knows (session ∷ state) b
      → render_for_binding planner execution.plan b ≡ inr a
      → All (IsOwned b) (carried (rendered_handles planner a) state)
      → Given (reserved planner execution selected b r).1 (IsBound execution.plan session state)
  reserved-IsBound execution selected b a session state (s, none) k e o = tt
  reserved-IsBound execution selected b a session state (s, some (c, turn)) k e o =
      elim (Bool-cases (same_route b c)) [
        | inr other ↦ rw other tt
        | inl same ↦ rw same (b, a, k, refl, refl, refl, refl, e, o)
      ]

  bind_and_reserve-IsBound :
      (now : ℕ) (execution : Execution Plan) (selected : Lookup) (b : Binding) (session : Lookup)
      (state : List Lookup) (a : Attempt) (s : Store) (o : Failure ⊎ List Lookup)
      → Knows (session ∷ state) b
      → render_for_binding planner execution.plan b ≡ inr a
      → Given o (λ bound. All (IsOwned b) (carried (rendered_handles planner a) state))
      → Given
          (bind_and_reserve planner now execution selected b session s o).1
          (IsBound execution.plan session state)
  bind_and_reserve-IsBound now execution selected b session state a s (inl failure) k e o = tt
  bind_and_reserve-IsBound now execution selected b session state a s (inr bound) k e o =
      let pending =
        execution.pending
        ++ (session_pending planner session ++ pending_bindings [] (selected ∷ bound)) in
      reserved-IsBound (record execution { pending = pending }) selected b a session state
        (reserve_turn now (latest selected bound).key s) k e o

  prepare_bound-IsBound :
      (now : ℕ) (execution : Execution Plan) (selected : Lookup) (b : Binding) (session : Lookup)
      (state : List Lookup) (a : Attempt) (s : Store)
      → (execution.tenant == "public") ≡ false
      → Knows (session ∷ state) b
      → render_for_binding planner execution.plan b ≡ inr a
      → Given
          (prepare_bound planner now execution selected b session state a s).1
          (IsBound execution.plan session state)
  unfolding prepare_bound
  prepare_bound-IsBound now execution selected b session state a s t k e =
      bind_and_reserve-IsBound now execution selected b session state a s _ k e
        (bound_lookups-IsOwned execution.tenant b (rendered_handles planner a) state t)

  -- A choice comes with the request rendered for its binding.
  abbrev IsRendered : Plan → List Lookup → Failure ⊎ Option (Choice planner) → Type 0
  IsRendered plan state r = Given r (λ o.
      with_option o Unit (λ c. (render_for_binding planner plan c.1 ≡ inr c.2) × Knows state c.1))

  IsRendered-cons :
      (plan : Plan) (item : Lookup) (state : List Lookup) (r : Failure ⊎ Option (Choice planner))
      → IsRendered plan state r
      → IsRendered plan (item ∷ state) r
  IsRendered-cons plan item state (inl failure) h = tt
  IsRendered-cons plan item state (inr none) h = tt
  IsRendered-cons plan item state (inr (some c)) h = (h.0, inr h.1)

  try_rendered-IsRendered :
      (plan : Plan) (candidate : Lookup) (state : List Lookup) (b : Binding)
      (rest : Failure ⊎ Option (Choice planner)) (r : Failure ⊎ Attempt)
      → render_for_binding planner plan b ≡ r
      → candidate.found ≡ some b
      → IsRendered plan (candidate ∷ state) rest
      → IsRendered plan (candidate ∷ state) (try_rendered planner candidate b rest r)
  try_rendered-IsRendered plan candidate state b rest (inl failure) e k h = tt
  try_rendered-IsRendered plan candidate state b rest (inr attempt) e k h =
      if_both (IsRendered plan (candidate ∷ state)) _ (inr (some (candidate, b, attempt))) rest
        (e, inl k) h

  select_state-IsRendered :
      (plan : Plan) (state : List Lookup) → IsRendered plan state (select_state planner plan state)
  unfolding select_state
  select_state-IsRendered plan [] = tt
  select_state-IsRendered plan (item ∷ state) =
      let rest = IsRendered-cons plan item state _ (select_state-IsRendered plan state) in
      option_known (IsRendered plan (item ∷ state)) item.found (select_state planner plan state) _
        rest
        (λ b k.
          try_rendered-IsRendered plan item state b (select_state planner plan state)
            (render_for_binding planner plan b) refl k rest)

  abbrev pub IsIsolated : Plan → Lookup → List Lookup → Failure ⊎ Execution Plan → Type 0
  IsIsolated plan session state r =
      Given r (λ x. IsBound plan session state x ⊎ IsFree planner plan state x)

  bound-IsIsolated :
      (plan : Plan) (session : Lookup) (state : List Lookup) (r : Failure ⊎ Execution Plan)
      → Given r (IsBound plan session state)
      → IsIsolated plan session state r
  bound-IsIsolated plan session state (inl failure) h = tt
  bound-IsIsolated plan session state (inr x) h = inl h

  free-IsIsolated :
      (plan : Plan) (session : Lookup) (state : List Lookup) (r : Failure ⊎ Execution Plan)
      → Given r (IsFree planner plan state)
      → IsIsolated plan session state r
  free-IsIsolated plan session state (inl failure) h = tt
  free-IsIsolated plan session state (inr x) h = inr h

  prepare_chosen-IsIsolated :
      (now : ℕ) (execution : Execution Plan) (session : Lookup) (state : List Lookup) (s : Store)
      (r : Failure ⊎ Option (Choice planner))
      → (execution.tenant == "public") ≡ false
      → execution.pinned ≡ ""
      → IsRendered execution.plan state r
      → IsIsolated execution.plan session state
          (prepare_chosen planner now execution session state s r).1
  prepare_chosen-IsIsolated now execution session state s (inl failure) t p e = tt
  prepare_chosen-IsIsolated now execution session state s (inr none) t p e =
      free-IsIsolated execution.plan session state
        (prepare_fresh planner execution session state (preserved_handles planner execution.plan))
        (prepare_fresh-IsFree planner execution session state t p)
  prepare_chosen-IsIsolated now execution session state s (inr (some (selected, b, a))) t p e =
      bound-IsIsolated execution.plan session state
        (prepare_bound planner now execution selected b session state a s).1
        (prepare_bound-IsBound now execution selected b session state a s t (inr e.1) e.0)

  prepare_session-IsIsolated :
      (now : ℕ) (execution : Execution Plan) (session : Lookup) (b : Binding) (state : List Lookup)
      (s : Store) (r : Failure ⊎ Attempt)
      → (execution.tenant == "public") ≡ false
      → session.found ≡ some b
      → render_for_binding planner execution.plan b ≡ r
      → IsIsolated execution.plan session state
          (prepare_session planner now execution session b state s r).1
  prepare_session-IsIsolated now execution session b state s (inl failure) t k e = tt
  prepare_session-IsIsolated now execution session b state s (inr a) t k e =
      bound-IsIsolated execution.plan session state
        (prepare_bound planner now execution session b session state a s).1
        (prepare_bound-IsBound now execution session b session state a s t (inl k) e)

  -- The lookup of the session and those of the state that a preparation makes.
  abbrev pub session_of : Digest → ℕ → String → String → Plan → Store → Lookup
  session_of d now tenant header plan s =
      (look_up_session d now tenant (planner.model plan) header s).1

  abbrev pub looked_up :
      Digest → ℕ → String → String → Plan → Store → Store × List Lookup × List StateHandle
  looked_up d now tenant header plan s =
      look_up_states d now tenant (planner.model plan) (planner.state_handles plan)
        (look_up_session d now tenant (planner.model plan) header s).0

  pub prepare_inference-IsIsolated :
      (d : Digest) (now : ℕ) (tenant : String) (soft : Affinity) (logical header : String)
      (plan : Plan) (s : Store)
      → (tenant == "public") ≡ false
      → IsIsolated
          (cleaned_plan planner plan (looked_up d now tenant header plan s).2)
          (session_of d now tenant header plan s)
          (looked_up d now tenant header plan s).1
          (prepare_inference planner d now tenant soft logical header plan s).1
  unfolding prepare_inference
  prepare_inference-IsIsolated d now tenant soft logical header plan s t =
      let session = look_up_session d now tenant (planner.model plan) header s in
      let looked = looked_up d now tenant header plan s in
      let x =
        new_execution planner tenant soft logical (planner.model plan)
          (cleaned_plan planner plan looked.2) in
      option_known
        (λ (r : Store × (Failure ⊎ Execution Plan)). IsIsolated x.plan session.1 looked.1 r.1)
        session.1.found
        (prepare_chosen planner now x session.1 looked.1 looked.0
          (select_state planner x.plan looked.1))
        (λ binding.
          prepare_session planner now x session.1 binding looked.1 looked.0
            (render_for_binding planner x.plan binding))
        (prepare_chosen-IsIsolated now x session.1 looked.1 looked.0
          (select_state planner x.plan looked.1) t refl (select_state-IsRendered x.plan looked.1))
        (λ binding known.
          prepare_session-IsIsolated now x session.1 binding looked.1 looked.0
            (render_for_binding planner x.plan binding) t known refl)
