-- ===== src/Pool/Snapshot.antt =====
-- rebuildActive: the scheduling snapshot, and who is in it.
pub mod Exact
use grokcli2api_go.Prelude.{
  ℕ, String, ◌≡◌, refl, Bool, true, false, not, ◌&&◌, ◌||◌, Option, none, some, List, [], ◌∷◌, ◌++◌,
  ◌==◌, if◌then◌else◌, ltb, eqb, select, any,
}
use grokcli2api_go.Prelude.Map.{Map, lookup, insert, values, map_values}
use grokcli2api_go.Prelude.Sort.{sort_by}
use grokcli2api_go.Catalog.Aggregate.{or_nil}
use grokcli2api_go.Pool.{Account, Credential, Pool}
use grokcli2api_go.Pool.Eligibility.{available, model_ids, cooling}

abbrev pub ids_if_any : Account → Option Credential → List String
ids_if_any a none = []
ids_if_any a (some c) = model_ids a.descriptors c

-- The models of an account that are not cooling down.
unfoldable pub offered_models : ℕ → Account → List String
offered_models now a =
    select (λ m. not (cooling (lookup m a.model_cooldowns) now)) (ids_if_any a a.credential)

-- byModel[model] = append(byModel[model], a) for each model
unfoldable pub add_models : ℕ → List String → Map (List ℕ) → Map (List ℕ)
add_models p [] index = index
add_models p (m ∷ ms) index = add_models p ms (insert m (or_nil (lookup m index) ++ p ∷ []) index)

-- The loop over the accounts.
unfoldable pub index_models : ℕ → (ℕ → Account) → List ℕ → Map (List ℕ) → Map (List ℕ)
unfolding offered_models add_models
index_models now heap [] index = index
index_models now heap (p ∷ ps) index =
    index_models now heap ps
      (if available (heap p) now then add_models p (offered_models now (heap p)) index else index)

unfoldable pub rebuild_active : ℕ → Pool → Pool
unfolding index_models
rebuild_active now pool =
    let by_id = sort_by (λ p. (pool.heap p).id) in
    let ps = values pool.accounts in
    record pool {
      active = by_id (select (λ p. available (pool.heap p) now) ps);
      active_by_model = map_values by_id (index_models now pool.heap ps []);
    }

unfoldable pub scheduling_snapshot : Pool → String → List ℕ
scheduling_snapshot pool model =
    if model == "" then pool.active else or_nil (lookup model pool.active_by_model)
