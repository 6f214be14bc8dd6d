-- ===== src/Catalog/Aggregate/Flags.antt =====
-- What an aggregated model promises for every account: flags and efforts that all share, and the
-- backends that some account uses.
use grokcli2api_go.Prelude.{
  String, ◌≡◌, refl, ◌∙◌, Bool, true, false, ◌&&◌, ◌||◌, some, List, [], ◌∷◌, arith, ◌==◌, eq_iff,
  has, has-select, select,
}
use grokcli2api_go.Prelude.Sort.{has-sort_texts}
use grokcli2api_go.Catalog.{ModelDescriptor}
use grokcli2api_go.Catalog.Aggregate.{
  Totals, no_totals, add_to_set, supported_effort_set, absorb, absorb_all, aggregate_group, or_nil,
}

-- Whether a test holds of every candidate, and of some candidate.
abbrev pub every : (ModelDescriptor → Bool) → List ModelDescriptor → Bool
every f [] = true
every f (d ∷ ds) = f d && every f ds

abbrev pub some_of : (ModelDescriptor → Bool) → List ModelDescriptor → Bool
some_of f [] = false
some_of f (d ∷ ds) = f d || some_of f ds

has-add_to_set : (k x : String) (s : List String) → has k (add_to_set x s) ≡ ((x == k) || has k s)
unfolding add_to_set has
has-add_to_set k x s = ground (arith, eq_iff x k)

-- The three flags hold when they hold of every candidate.
flags-absorb_all :
    (t : Totals) (ds : List ModelDescriptor)
    → let r = absorb_all t ds in
      (r.backend_search ≡ (t.backend_search && every (λ d. d.supports_backend_search) ds))
      × (r.tool_calls ≡ (t.tool_calls && every (λ d. d.stream_tool_calls) ds))
      × (r.reasoning ≡ (t.reasoning && every (λ d. d.supports_reasoning_effort) ds))
unfolding absorb_all
flags-absorb_all t [] = ground arith
flags-absorb_all t (d ∷ ds) = ground (arith, flags-absorb_all (absorb t d) ds)

backends-absorb_all :
    (b : String) (t : Totals) (ds : List ModelDescriptor)
    → has b (absorb_all t ds).backends ≡ (has b t.backends || some_of (λ d. d.backend == b) ds)
unfolding absorb_all
backends-absorb_all b t [] = ground arith
backends-absorb_all b t (d ∷ ds) =
    ground (arith, backends-absorb_all b (absorb t d) ds, has-add_to_set b d.backend t.backends)

efforts-absorb_all :
    (e : String) (t : Totals) (es : List String) (ds : List ModelDescriptor)
    → t.efforts ≡ some es
    → has e (or_nil (absorb_all t ds).efforts)
      ≡ (has e es && every (λ d. has e (supported_effort_set d)) ds)
unfolding absorb_all
efforts-absorb_all e t es [] h = rw h (ground arith)
efforts-absorb_all e t es (d ∷ ds) h =
    rw
      (efforts-absorb_all e (absorb t d) (select (λ x. has x (supported_effort_set d)) es) ds
        (rw h refl))
      (ground (arith, has-select e (λ x. has x (supported_effort_set d)) es))

module _ (id : String) (d : ModelDescriptor) (ds : List ModelDescriptor) where
  -- Of a model's accounts: a flag is set when all of them set it, an effort is listed when all of
  -- them support it, and a backend is listed when one of them uses it.
  pub aggregate_group_shared :
      (e b : String)
      → let item = aggregate_group id (d ∷ ds) in
        (item.supports_backend_search ≡ every (λ c. c.supports_backend_search) (d ∷ ds))
        × (item.stream_tool_calls ≡ every (λ c. c.stream_tool_calls) (d ∷ ds))
        × (item.supports_reasoning_effort ≡ every (λ c. c.supports_reasoning_effort) (d ∷ ds))
        × (has e item.reasoning_efforts ≡ every (λ c. has e (supported_effort_set c)) (d ∷ ds))
        × (has b item.api_backends ≡ some_of (λ c. c.backend == b) (d ∷ ds))
  unfolding aggregate_group
  aggregate_group_shared e b =
      let t = absorb_all no_totals (d ∷ ds) in
      (
        (flags-absorb_all no_totals (d ∷ ds)).0,
        (flags-absorb_all no_totals (d ∷ ds)).1,
        (flags-absorb_all no_totals (d ∷ ds)).2,
        has-sort_texts e (or_nil t.efforts)
            ∙ (unfold absorb_all in
                efforts-absorb_all e (absorb no_totals d) (supported_effort_set d) ds refl),
        has-sort_texts b t.backends ∙ (unfold has in backends-absorb_all b no_totals (d ∷ ds)),
      )
