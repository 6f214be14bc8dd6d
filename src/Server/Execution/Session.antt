-- ===== src/Server/Execution/Session.antt =====
-- A request of a known session: its account and its next turn.
use grokcli2api_go.Prelude.{
  ℕ, ◌+◌, ◌%◌, ◌^◌, ◌<◌, String, ◌≡◌, ◌≢◌, refl, ap, ◌∙◌, true, false, not, ◌&&◌, Option, none,
  some, List, [], ◌∷◌, ◌++◌, arith, ◌==◌, eq_iff, eq_refl, if_else, has, ◌⊎◌, inr, lt→ltb,
}
use grokcli2api_go.Prelude.Map.{lookup, insert, lookup-insert_self}
use grokcli2api_go.Prelude.Text.{trim_space}
use grokcli2api_go.Pool.{Affinity, Digest}
use grokcli2api_go.Continuity.{
  Binding, Store, continuity_key, lookup_binding, reserve_turn, changed, renewed,
}
use grokcli2api_go.Continuity.Turns.{advanced, reserve_turn_live}
use grokcli2api_go.Server.Execution.{
  Attempt, Planner, Failure, Lookup, Pending, Execution, same_route, render_for_binding,
}
use grokcli2api_go.Server.Execution.Prepare.{
  bound_to, session_pending, reserved, prepare_bound, new_execution, prepare_inference,
}
use grokcli2api_go.Server.Execution.Lookups.{
  no_lookup, session_affinity, look_up_states, bound_lookups, latest, pending_bindings,
}

pub not_empty : (t : String) → t ≢ "" → (t == "") ≡ false
not_empty t n = ground (arith, n, eq_iff t "")

lookup_binding_live :
    (d : Digest) (now : ℕ) (tenant : String) (affinity : Affinity) (model : String) (s : Store)
    (b : Binding)
    → continuity_key d tenant affinity model ≢ ""
    → lookup (continuity_key d tenant affinity model) s.bindings ≡ some b
    → now < b.expires_at
    → lookup_binding d now tenant affinity model s ≡ (
      changed s (insert (continuity_key d tenant affinity model) (renewed s now b) s.bindings),
      continuity_key d tenant affinity model,
      some (renewed s now b),
    )
unfolding lookup_binding
lookup_binding_live d now tenant affinity model s b n h l =
    rw (not_empty _ n, h, lt→ltb now b.expires_at l) refl

-- Neither the turn nor the time changes the route.
same_route-advanced :
    (s : Store) (now : ℕ) (b : Binding) → b.account_id ≢ "" → same_route b (advanced s now b) ≡ true
unfolding same_route
same_route-advanced s now b n = ground (
  arith,
  not_empty b.account_id n,
  eq_refl b.account_id,
  eq_refl b.model,
  eq_refl b.backend,
  eq_refl b.session_id,
)

module _ {Plan : Type 0} (planner : Planner Plan) where
  -- The lookup of a session that is known and live.
  abbrev pub known_session : String → Affinity → Binding → Lookup
  known_session key affinity r = record {
    handle = no_lookup.handle;
    affinity = affinity;
    key = key;
    found = some r;
  }

  abbrev known_pending : String → Affinity → List Pending
  known_pending key affinity = record { key = key; affinity = affinity; state = none } ∷ []

  pending_known :
      (key : String) (affinity : Affinity) (r : Binding)
      → key ≢ ""
      → session_pending planner (known_session key affinity r)
          ++ pending_bindings [] (known_session key affinity r ∷ [])
        ≡ known_pending key affinity
  unfolding pending_bindings has
  pending_known key affinity r n =
      rw (pending_bindings, not_empty key n)
        (ap (λ (p : List Pending). p ++ known_pending key affinity)
          (if_else (λ (p : List Pending). p ≡ []) (not (affinity.key == "") && false) _ _
            (ground arith) refl))

  prepare_bound_known :
      (now : ℕ) (x : Execution Plan) (key : String) (affinity : Affinity) (r : Binding)
      (a : Attempt) (s : Store)
      → key ≢ ""
      → r.account_id ≢ ""
      → lookup key s.bindings ≡ some r
      → now < r.expires_at
      → prepare_bound planner now x
          (known_session key affinity r)
          r
          (known_session key affinity r)
          []
          a
          s
        ≡ (
          changed s (insert key (advanced s now r) s.bindings),
          inr (
              bound_to planner
                (record x {
                  pending =
                      x.pending ++ (record { key = key; affinity = affinity; state = none } ∷ []);
                })
                (known_session key affinity r)
                r
                r.next_turn),
        )
  unfolding prepare_bound bound_lookups latest
  prepare_bound_known now x key affinity r a s n m h l =
      let known = known_session key affinity r in
      let y = record x { pending = x.pending ++ known_pending key affinity } in
      ap
        (λ (p : List Pending).
          reserved planner (record x { pending = x.pending ++ p }) known r (reserve_turn now key s))
        (pending_known key affinity r n)
      ∙ ap (λ (q : Store × Option (Binding × ℕ)). reserved planner y known r q)
          (reserve_turn_live now key s r n h l)
      ∙ rw (same_route-advanced s now r m) refl

  -- The way of a known session through the preparation.
  prepare_inference_known :
      (d : Digest) (now : ℕ) (tenant : String) (soft : Affinity) (logical header : String)
      (plan : Plan) (s : Store) (b : Binding) (a : Attempt)
      → trim_space header ≢ ""
      → planner.state_handles plan ≡ []
      → continuity_key d tenant (session_affinity tenant (trim_space header)) (planner.model plan)
        ≢ ""
      → lookup
          (continuity_key d tenant
            (session_affinity tenant (trim_space header))
            (planner.model plan))
          s.bindings
        ≡ some b
      → now < b.expires_at
      → render_for_binding planner plan (renewed s now b) ≡ inr a
      → prepare_inference planner d now tenant soft logical header plan s
        ≡ prepare_bound planner now
            (new_execution planner tenant soft logical (planner.model plan) plan)
            (known_session
              (continuity_key d tenant
                (session_affinity tenant (trim_space header))
                (planner.model plan))
              (session_affinity tenant (trim_space header))
              (renewed s now b))
            (renewed s now b)
            (known_session
              (continuity_key d tenant
                (session_affinity tenant (trim_space header))
                (planner.model plan))
              (session_affinity tenant (trim_space header))
              (renewed s now b))
            []
            a
            (changed s (
              insert
                (continuity_key d tenant
                  (session_affinity tenant (trim_space header))
                  (planner.model plan))
                (renewed s now b)
                s.bindings))
  unfolding prepare_inference look_up_states
  prepare_inference_known d now tenant soft logical header plan s b a t e n h l r =
      rw
        (
          prepare_inference,
          not_empty (trim_space header) t,
          lookup_binding_live d now tenant (session_affinity tenant (trim_space header))
              (planner.model plan) s b n h l,
          e,
          r,
        )
        refl

  -- A request with the header of a session that the store knows, not expired, and without state of its
  -- own, rendered for the session's backend: it is prepared for the account, the backend and the session
  -- of the binding, gets the binding's next turn, and the store then has the turn after it.
  pub prepare_known_session :
      (d : Digest) (now : ℕ) (tenant : String) (soft : Affinity) (logical header : String)
      (plan : Plan) (s : Store) (b : Binding) (a : Attempt)
      → trim_space header ≢ ""
      → planner.state_handles plan ≡ []
      → continuity_key d tenant (session_affinity tenant (trim_space header)) (planner.model plan)
        ≢ ""
      → lookup
          (continuity_key d tenant
            (session_affinity tenant (trim_space header))
            (planner.model plan))
          s.bindings
        ≡ some b
      → now < b.expires_at
      → 0 < s.ttl
      → b.account_id ≢ ""
      → render_for_binding planner plan (renewed s now b) ≡ inr a
      → (x : Execution Plan) × ((prepare_inference planner d now tenant soft logical header plan
            s).1
          ≡ inr x)
        × (x.pinned ≡ b.account_id)
        × (x.expected_backend ≡ b.backend)
        × (x.session_id ≡ b.session_id)
        × (x.turn_index ≡ b.next_turn)
        × (lookup
              (continuity_key d tenant
                (session_affinity tenant (trim_space header))
                (planner.model plan))
              (prepare_inference planner d now tenant soft logical header plan s).0.bindings
            ≡ some (record b { next_turn = (b.next_turn + 1) % 2 ^ 64; expires_at = now + s.ttl }))
  prepare_known_session d now tenant soft logical header plan s b a t e n h l p m r =
      let model = planner.model plan in
      let affinity = session_affinity tenant (trim_space header) in
      let key = continuity_key d tenant affinity model in
      let c = renewed s now b in
      let after = changed s (insert key c s.bindings) in
      let x = new_execution planner tenant soft logical model plan in
      let bound =
        prepare_bound_known now x key affinity c a after n m (lookup-insert_self key c s.bindings)
          (omega (arith, p)) in
      let whole =
        prepare_inference_known d now tenant soft logical header plan s b a t e n h l r ∙ bound in
      (
        bound_to planner (record x { pending = x.pending ++ known_pending key affinity })
            (known_session key affinity c) c c.next_turn,
        ap (λ (q : Store × (Failure ⊎ Execution Plan)). q.1) whole,
        refl,
        refl,
        refl,
        refl,
        ap (λ (q : Store × (Failure ⊎ Execution Plan)). lookup key q.0.bindings) whole
            ∙ lookup-insert_self key (advanced after now c) after.bindings,
      )
