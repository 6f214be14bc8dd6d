-- ===== src/Server/Execution/Continued.antt =====
-- A session over two requests: the first binds it, and the second continues it.
use grokcli2api_go.Prelude.{
  ℕ, ◌+◌, ◌<◌, String, ◌≡◌, ◌≢◌, refl, ap, sym, subst, ◌∙◌, not, none, some, [], ◌∷◌, ◌==◌, if_then,
  if_both, inr,
}
use grokcli2api_go.Prelude.Map.{lookup, lookup-insert_self}
use grokcli2api_go.Prelude.Text.{trim_space, join_text-cons}
use grokcli2api_go.Pool.{Affinity, Digest}
use grokcli2api_go.Continuity.{
  Binding, Store, affinity_kind, continuity_key, lookup_binding, bind, evict, renewed,
}
use grokcli2api_go.Server.Execution.{Attempt, Planner, Execution, render_for_binding}
use grokcli2api_go.Server.Execution.Prepare.{
  select_state, fresh_execution, prepare_fresh, prepare_inference, new_execution,
}
use grokcli2api_go.Server.Execution.Lookups.{session_affinity, look_up_states, refused_state}
use grokcli2api_go.Server.Execution.Commit.{bind_each, bind_pending}
use grokcli2api_go.Server.Execution.Session.{not_empty, prepare_known_session}

lookup_binding_absent :
    (d : Digest) (now : ℕ) (tenant : String) (affinity : Affinity) (model : String) (s : Store)
    → continuity_key d tenant affinity model ≢ ""
    → lookup (continuity_key d tenant affinity model) s.bindings ≡ none
    → lookup_binding d now tenant affinity model s
      ≡ (s, continuity_key d tenant affinity model, none)
unfolding lookup_binding
lookup_binding_absent d now tenant affinity model s n h = rw (not_empty _ n, h) refl

-- The binding that a request with a session makes.
abbrev pub session_binding : Affinity → String → String → String → String → ℕ → ℕ → Binding
session_binding affinity account_id model backend session_id next_turn expires_at = record {
  kind = affinity_kind affinity;
  account_id = account_id;
  model = model;
  backend = backend;
  session_id = session_id;
  next_turn = next_turn;
  expires_at = expires_at;
}

module _ {Plan : Type 0} (planner : Planner Plan) where
  -- What a request with a session that the store does not know is sent with.
  abbrev pub new_session : Digest → String → Affinity → String → String → Plan → Execution Plan
  new_session d tenant soft logical header plan =
      let affinity = session_affinity tenant (trim_space header) in
      record (new_execution planner tenant soft logical (planner.model plan) plan) {
        affinity = affinity;
        pending =
            record {
              key = continuity_key d tenant affinity (planner.model plan);
              affinity = affinity;
              state = none;
            }
            ∷ [];
      }

  prepare_new_session :
      (d : Digest) (now : ℕ) (tenant : String) (soft : Affinity) (logical header : String)
      (plan : Plan) (s : Store)
      → trim_space header ≢ ""
      → planner.state_handles plan ≡ []
      → continuity_key d tenant (session_affinity tenant (trim_space header)) (planner.model plan)
        ≢ ""
      → lookup
          (continuity_key d tenant
            (session_affinity tenant (trim_space header))
            (planner.model plan))
          s.bindings
        ≡ none
      → prepare_inference planner d now tenant soft logical header plan s
        ≡ (s, inr (new_session d tenant soft logical header plan))
  unfolding prepare_inference look_up_states select_state prepare_fresh refused_state
      fresh_execution
  prepare_new_session d now tenant soft logical header plan s t e n h =
      rw
        (
          prepare_inference,
          not_empty (trim_space header) t,
          lookup_binding_absent d now tenant (session_affinity tenant (trim_space header))
              (planner.model plan) s n h,
          e,
        )
        (ap (λ (x : Execution Plan). (s, inr x))
          (if_then (λ (x : Execution Plan). x ≡ new_session d tenant soft logical header plan)
            (not ((session_affinity tenant (trim_space header)).key == "")) _ _
            (rw (join_text-cons "s" "ession:" (trim_space header)) refl) refl))

  -- What bindPendingContinuity leaves under the key of a new session.
  bind_pending_session :
      (d : Digest) (now : ℕ) (tenant : String) (soft : Affinity) (logical header : String)
      (plan : Plan) (account_id : String) (attempt : Attempt) (turn : ℕ) (s : Store)
      → continuity_key d tenant (session_affinity tenant (trim_space header)) (planner.model plan)
        ≢ ""
      → account_id ≢ ""
      → planner.model plan ≢ ""
      → logical ≢ ""
      → lookup
          (continuity_key d tenant
            (session_affinity tenant (trim_space header))
            (planner.model plan))
          (bind_pending planner now
            (new_session d tenant soft logical header plan)
            account_id
            attempt
            logical
            turn
            s).bindings
        ≡ some (
            session_binding
              (session_affinity tenant (trim_space header))
              account_id
              (planner.model plan)
              attempt.backend
              logical
              turn
              (now + s.ttl))
  unfolding bind_pending bind_each bind
  bind_pending_session d now tenant soft logical header plan account_id attempt turn s n a m l =
      rw
        (
          bind_pending,
          bind_each,
          bind,
          not_empty _ n,
          not_empty account_id a,
          not_empty (planner.model plan) m,
          not_empty logical l,
        )
        (lookup-insert_self _ _ (evict s.limit now s.bindings))

  ttl-bind_pending :
      (d : Digest) (now : ℕ) (tenant : String) (soft : Affinity) (logical header : String)
      (plan : Plan) (account_id : String) (attempt : Attempt) (turn : ℕ) (s : Store)
      → (bind_pending planner now
          (new_session d tenant soft logical header plan)
          account_id
          attempt
          logical
          turn
          s).ttl
        ≡ s.ttl
  unfolding bind_pending bind_each bind
  ttl-bind_pending d now tenant soft logical header plan account_id attempt turn s =
      if_both (λ (r : Store). r.ttl ≡ s.ttl) _ _ _ refl refl

  -- A first request with the header of a session that the store does not know, without state of its own,
  -- is prepared for no account. When its response binds what is pending to the account and the backend
  -- that served it, a later request with the header, before the binding expires and rendered for that
  -- backend, is prepared for the same account, backend and session, with the turn that was bound.
  pub session_continues :
      (d : Digest) (now served later : ℕ) (tenant : String) (soft : Affinity)
      (logical other header : String) (plan next : Plan) (s : Store) (account_id : String)
      (attempt a : Attempt) (turn : ℕ)
      → trim_space header ≢ ""
      → planner.state_handles plan ≡ []
      → planner.state_handles next ≡ []
      → planner.model next ≡ planner.model plan
      → continuity_key d tenant (session_affinity tenant (trim_space header)) (planner.model plan)
        ≢ ""
      → lookup
          (continuity_key d tenant
            (session_affinity tenant (trim_space header))
            (planner.model plan))
          s.bindings
        ≡ none
      → account_id ≢ ""
      → planner.model plan ≢ ""
      → logical ≢ ""
      → later < served + s.ttl
      → 0 < s.ttl
      → ((b : Binding)
          → b.account_id ≡ account_id
          → b.backend ≡ attempt.backend
          → render_for_binding planner next b ≡ inr a)
      → (x : Execution Plan) × (prepare_inference planner d now tenant soft logical header plan s
          ≡ (s, inr x))
        × (x.pinned ≡ "")
        × (y : Execution Plan) × ((prepare_inference planner d later tenant soft other header next
              (bind_pending planner served x account_id attempt x.session_id turn s)).1
            ≡ inr y)
        × (y.pinned ≡ account_id)
        × (y.expected_backend ≡ attempt.backend)
        × (y.session_id ≡ x.session_id)
        × (y.turn_index ≡ turn)
  session_continues d now served later tenant soft logical other header plan next s account_id
        attempt a turn t e e' same n h p m l q z r =
      let x = new_session d tenant soft logical header plan in
      let after = bind_pending planner served x account_id attempt logical turn s in
      let affinity = session_affinity tenant (trim_space header) in
      let b =
        session_binding affinity account_id (planner.model plan) attempt.backend logical turn
          (served + s.ttl) in
      let bound =
        bind_pending_session d served tenant soft logical header plan account_id attempt turn s n p
          m l in
      let key_same = ap (continuity_key d tenant affinity) same in
      let second =
        prepare_known_session planner d later tenant soft other header next after b a t e'
          (subst (λ k. k ≢ "") (sym key_same) n)
          (ap (λ k. lookup k after.bindings) key_same ∙ bound) q
          (rw (ttl-bind_pending d served tenant soft logical header plan account_id attempt turn s)
            z)
          p (r (renewed after later b) refl refl) in
      (
        x,
        prepare_new_session d now tenant soft logical header plan s t e n h,
        refl,
        second.0,
        second.1,
        second.2,
        second.3,
        second.4,
        second.5,
      )
