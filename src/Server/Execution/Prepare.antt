-- ===== src/Server/Execution/Prepare.antt =====
-- prepareInferenceExecution and prepareBoundExecution of internal/server/inference_execution.go.
use grokcli2api_go.Prelude.{
  ℕ, String, not, ◌&&◌, Option, none, some, List, [], ◌∷◌, ◌++◌, ◌==◌, if◌then◌else◌, with_option,
  has, is_nil, ◌⊎◌, inl, inr,
}
use grokcli2api_go.Prelude.Map.{found}
use grokcli2api_go.Pool.{Affinity, Digest}
use grokcli2api_go.Continuity.{Binding, Store, reserve_turn}
use grokcli2api_go.Server.Execution.{
  Attempt, StateHandle, Planner, Failure, state_unavailable, Lookup, Pending, Execution, handle_key,
  same_route, rendered_handles, render_for_binding, preserved_handles,
}
use grokcli2api_go.Server.Execution.Lookups.{
  look_up_session, look_up_states, bound_lookups, pending_bindings, latest, refused_state,
  carried_state,
}

module _ {Plan : Type 0} (planner : Planner Plan) where
  -- What the end of prepareBoundExecution sets.
  abbrev pub bound_to : Execution Plan → Lookup → Binding → ℕ → Execution Plan
  bound_to execution selected binding turn = record execution {
    affinity = selected.affinity;
    pinned = binding.account_id;
    expected_backend = binding.backend;
    session_id = binding.session_id;
    conversation_id = binding.session_id;
    turn_index = turn;
  }

  -- A new explicit session is bound as well.
  abbrev pub session_pending : Lookup → List Pending
  session_pending session =
      if not (session.affinity.key == "") && not (found session.found)
      then record { key = session.key; affinity = session.affinity; state = none } ∷ []
      else []

  -- The reservation at the end of prepareBoundExecution.
  abbrev pub reserved :
      Execution Plan
      → Lookup
      → Binding
      → Store × Option (Binding × ℕ)
      → Store × (Failure ⊎ Execution Plan)
  reserved execution selected binding (s, none) = (s, inl state_unavailable)
  reserved execution selected binding (s, some (b, turn)) =
      if not (same_route binding b)
      then (s, inl state_unavailable)
      else (s, inr (bound_to execution selected binding turn))

  -- What follows the loop over the state in prepareBoundExecution.
  abbrev pub bind_and_reserve :
      ℕ
      → Execution Plan
      → Lookup
      → Binding
      → Lookup
      → Store
      → Failure ⊎ List Lookup
      → Store × (Failure ⊎ Execution Plan)
  bind_and_reserve now execution selected binding session s (inl failure) = (s, inl failure)
  bind_and_reserve now execution selected binding session s (inr bound) =
      reserved
        (record execution {
          pending =
              execution.pending
              ++ (session_pending session ++ pending_bindings [] (selected ∷ bound));
        })
        selected binding (reserve_turn now (latest selected bound).key s)

  -- prepareBoundExecution; `binding` is the selected lookup's.
  unfoldable pub prepare_bound :
      ℕ
      → Execution Plan
      → Lookup
      → Binding
      → Lookup
      → List Lookup
      → Attempt
      → Store
      → Store × (Failure ⊎ Execution Plan)
  prepare_bound now execution selected binding session state attempt s =
      bind_and_reserve now execution selected binding session s
        (bound_lookups execution.tenant binding (rendered_handles planner attempt) state)

  -- A lookup that selects the route, its binding, and the request rendered for it.
  abbrev pub Choice : Type 0
  Choice = Lookup × Binding × Attempt

  abbrev pub try_rendered :
      Lookup → Binding → (Failure ⊎ Option Choice) → Failure ⊎ Attempt → Failure ⊎ Option Choice
  try_rendered candidate binding rest (inl failure) = inl failure
  try_rendered candidate binding rest (inr attempt) =
      if has (handle_key candidate.handle) (rendered_handles planner attempt)
      then inr (some (candidate, binding, attempt))
      else rest

  -- The first handle that is known and that its binding's request carries.
  unfoldable pub select_state : Plan → List Lookup → Failure ⊎ Option Choice
  select_state plan [] = inr none
  select_state plan (candidate ∷ state) =
      let rest = select_state plan state in
      with_option candidate.found rest
        (λ binding. try_rendered candidate binding rest (render_for_binding planner plan binding))

  abbrev pub bind_later : Execution Plan → Affinity → Pending → Execution Plan
  bind_later execution affinity pending = record execution {
    affinity = affinity;
    pending = execution.pending ++ pending ∷ [];
  }

  -- The tenant public may carry state that the store does not know.
  unfoldable pub public_execution : Execution Plan → List Lookup → List String → Execution Plan
  public_execution execution state potential =
      with_option (carried_state potential state) execution (λ item.
        bind_later execution item.affinity
          (record { key = item.key; affinity = item.affinity; state = some item.handle }))

  unfoldable pub fresh_execution :
      Execution Plan → Lookup → List Lookup → List String → Execution Plan
  fresh_execution execution session state potential =
      if not (session.affinity.key == "")
      then bind_later execution session.affinity
          (record { key = session.key; affinity = session.affinity; state = none })
      else if execution.tenant == "public"
      then public_execution execution state potential
      else execution

  -- The end of prepareInferenceExecution, without a known binding.
  unfoldable pub prepare_fresh :
      Execution Plan → Lookup → List Lookup → List String → Failure ⊎ Execution Plan
  prepare_fresh execution session state potential =
      with_option (refused_state execution.tenant potential state)
        (inr (fresh_execution execution session state potential)) inl

  abbrev pub prepare_chosen :
      ℕ
      → Execution Plan
      → Lookup
      → List Lookup
      → Store
      → Failure ⊎ Option Choice
      → Store × (Failure ⊎ Execution Plan)
  prepare_chosen now execution session state s (inl failure) = (s, inl failure)
  prepare_chosen now execution session state s (inr none) =
      (s, prepare_fresh execution session state (preserved_handles planner execution.plan))
  prepare_chosen now execution session state s (inr (some (selected, binding, attempt))) =
      prepare_bound now execution selected binding session state attempt s

  abbrev pub prepare_session :
      ℕ
      → Execution Plan
      → Lookup
      → Binding
      → List Lookup
      → Store
      → Failure ⊎ Attempt
      → Store × (Failure ⊎ Execution Plan)
  prepare_session now execution session binding state s (inl failure) = (s, inl failure)
  prepare_session now execution session binding state s (inr attempt) =
      prepare_bound now execution session binding session state attempt s

  -- The execution before its route is known; `logical` is the new session id.
  abbrev pub new_execution : String → Affinity → String → String → Plan → Execution Plan
  new_execution tenant soft logical model plan = record {
    tenant = tenant;
    model = model;
    plan = plan;
    affinity = soft;
    pinned = "";
    expected_backend = "";
    session_id = logical;
    conversation_id = logical;
    turn_index = 0;
    pending = [];
  }

  abbrev pub cleaned_plan : Plan → List StateHandle → Plan
  cleaned_plan plan unknown =
      if is_nil unknown then plan else planner.without_opaque_state plan unknown

  -- prepareInferenceExecution; `soft` is the affinity of requestSoftAffinity, `header` the session's header.
  unfoldable pub prepare_inference :
      Digest
      → ℕ
      → String
      → Affinity
      → String
      → String
      → Plan
      → Store
      → Store × (Failure ⊎ Execution Plan)
  prepare_inference d now tenant soft logical header plan s =
      let model = planner.model plan in
      let session = look_up_session d now tenant model header s in
      let looked = look_up_states d now tenant model (planner.state_handles plan) session.0 in
      let execution = new_execution tenant soft logical model (cleaned_plan plan looked.2) in
      with_option session.1.found
        (prepare_chosen now execution session.1 looked.1 looked.0
          (select_state execution.plan looked.1))
        (λ binding.
          prepare_session now execution session.1 binding looked.1 looked.0
            (render_for_binding planner execution.plan binding))
