-- ===== src/Pool/Snapshot/Exact.antt =====
-- The snapshot holds exactly the accounts that a request for the model may use.
use text.Mathlib.TextPositions.{compare_refl}
use grokcli2api_go.Prelude.{
  ℕ, String, ◌≡◌, ◌≢◌, refl, ap, sym, ◌∙◌, Bool, true, not, ◌&&◌, ◌||◌, Option, none, some, List,
  [], ◌∷◌, ◌++◌, arith, ◌==◌, eq_iff, if◌then◌else◌, eqb, select, any, any-append, has, has-select,
  All-has, Bool-cases, inl, inr,
}
use grokcli2api_go.Prelude.Map.{
  Map, lookup, insert, values, keys, on_some, lookup-insert, lookup-map_values, has-keys,
}
use grokcli2api_go.Prelude.Sort.{sort_by, any-sort_by, StrictlySorted, has-sort_texts, text_ltb}
use grokcli2api_go.Catalog.{ModelDescriptor}
use grokcli2api_go.Catalog.Aggregate.{or_nil}
use grokcli2api_go.Pool.{Account, Credential, Pool}
use grokcli2api_go.Pool.Eligibility.{
  available, model_ids, cooling, supports_model, has_model, has_model_if_any, search_models,
}
use grokcli2api_go.Pool.Snapshot.{
  offered_models, add_models, index_models, rebuild_active, scheduling_snapshot, ids_if_any,
}

pub search_models-has :
    (k : String) (xs : List String) → StrictlySorted xs → search_models k xs ≡ has k xs
unfolding search_models has
search_models-has k [] h = refl
search_models-has k (x ∷ xs) h = ground (
  arith,
  search_models-has k xs h.1,
  All-has (λ y. text_ltb x y ≡ true) k xs h.0,
  eq_iff x k,
  compare_refl k,
)

any-select : (t f : ℕ → Bool) (xs : List ℕ) → any t (select f xs) ≡ any (λ p. t p && f p) xs
unfolding any
any-select t f [] = refl
any-select t f (x ∷ xs) = ground (arith, any-select t f xs)

any-pointer :
    (p : ℕ) (f : ℕ → Bool) (xs : List ℕ) → any (λ q. eqb p q && f q) xs ≡ (any (eqb p) xs && f p)
unfolding any
any-pointer p f [] = refl
any-pointer p f (x ∷ xs) = ground (arith, any-pointer p f xs)

any-add_models :
    (t : ℕ → Bool) (k : String) (p : ℕ) (ms : List String) (index : Map (List ℕ))
    → any t (or_nil (lookup k (add_models p ms index)))
      ≡ (any t (or_nil (lookup k index)) || (has k ms && t p))
unfolding add_models has any
any-add_models t k p [] index = ground arith
any-add_models t k p (m ∷ ms) index = ground (
  arith,
  any-add_models t k p ms (insert m (or_nil (lookup m index) ++ p ∷ []) index),
  lookup-insert m k (or_nil (lookup m index) ++ p ∷ []) index,
  any-append t (or_nil (lookup m index)) (p ∷ []),
  eq_iff m k,
)

any-index_models :
    (t : ℕ → Bool) (k : String) (now : ℕ) (heap : ℕ → Account) (ps : List ℕ) (index : Map (List ℕ))
    → any t (or_nil (lookup k (index_models now heap ps index))) ≡ (
        any t (or_nil (lookup k index))
        || any (λ p. t p && (available (heap p) now && has k (offered_models now (heap p)))) ps)
unfolding index_models any
any-index_models t k now heap [] index = ground arith
any-index_models t k now heap (p ∷ ps) index = ground (
  arith,
  any-index_models t k now heap ps
      (if available (heap p) now then add_models p (offered_models now (heap p)) index else index),
  any-add_models t k p (offered_models now (heap p)) index,
)

-- The models that a credential lists are sorted, as `stringSlice` leaves them.
abbrev pub SortedIfAny : Option Credential → Type 0
SortedIfAny none = Unit
SortedIfAny (some c) = StrictlySorted c.models

model_ids-has :
    (k : String) (descriptors : Map ModelDescriptor) (c : Credential)
    → StrictlySorted c.models
    → has k (model_ids descriptors c) ≡ has_model descriptors c k
unfolding model_ids has_model
model_ids-has k [] c h = sym (search_models-has k c.models h)
model_ids-has k (e ∷ ds) c h =
    has-sort_texts k (select (has_model (e ∷ ds) c) (keys (e ∷ ds)))
    ∙ has-select k (has_model (e ∷ ds) c) (keys (e ∷ ds))
    ∙ ground (arith, has-keys k (e ∷ ds))

ids_if_any-has :
    (k : String) (a : Account) (o : Option Credential)
    → SortedIfAny o
    → has k (ids_if_any a o) ≡ has_model_if_any a o k
unfolding has
ids_if_any-has k a none s = refl
ids_if_any-has k a (some c) s = model_ids-has k a.descriptors c s

offered_models-supports :
    (k : String) (now : ℕ) (a : Account)
    → k ≢ ""
    → SortedIfAny a.credential
    → (available a now && has k (offered_models now a))
      ≡ (available a now && supports_model a now k)
unfolding offered_models supports_model available
offered_models-supports k now a n s = ground (
  arith,
  has-select k (λ m. not (cooling (lookup m a.model_cooldowns) now)) (ids_if_any a a.credential),
  ids_if_any-has k a a.credential s,
  eq_iff k "",
)

any-on_some :
    (t : ℕ → Bool) (key : ℕ → String) (o : Option (List ℕ))
    → any t (or_nil (on_some (sort_by key) o)) ≡ any t (or_nil o)
any-on_some t key none = refl
any-on_some t key (some xs) = any-sort_by key t xs

supports_model-empty :
    (a : Account) (now : ℕ) (model : String)
    → model == "" ≡ true
    → supports_model a now model ≡ true
unfolding supports_model
supports_model-empty a now model h = rw h

module _ (now : ℕ) (pool : Pool) (p : ℕ) (model : String) where
  -- After a rebuild, an account is scheduled for a model exactly when it is one of the pool's, it
  -- is available, and it supports the model at that time, when the list of models of its credential
  -- is strictly sorted.
  pub rebuild_active_exact :
      SortedIfAny (pool.heap p).credential
      → any (eqb p) (scheduling_snapshot (rebuild_active now pool) model) ≡ (
          any (eqb p) (values pool.accounts)
          && (available (pool.heap p) now && supports_model (pool.heap p) now model))
  unfolding rebuild_active scheduling_snapshot lookup any
  rebuild_active_exact s =
      let ps = values pool.accounts in
      let by_id = λ (q : ℕ). (pool.heap q).id in
      let usable_now = λ (q : ℕ). available (pool.heap q) now in
      let index = index_models now pool.heap ps [] in
      elim (Bool-cases (model == "")) [
        | inl e ↦ rw e (
            any-sort_by by_id (eqb p) (select usable_now ps)
            ∙ any-select (eqb p) usable_now ps
            ∙ any-pointer p usable_now ps
            ∙ ground (arith, supports_model-empty (pool.heap p) now model e))
        | inr n ↦ rw n (
            ap (λ o. any (eqb p) (or_nil o)) (lookup-map_values (sort_by by_id) model index)
            ∙ any-on_some (eqb p) by_id (lookup model index)
            ∙ any-index_models (eqb p) model now pool.heap ps []
            ∙ any-pointer p (λ q. usable_now q && has model (offered_models now (pool.heap q))) ps
            ∙ ap (λ b. any (eqb p) ps && b)
                (offered_models-supports model now (pool.heap p)
                  (λ e. ground (arith, e, n, eq_iff model "")) s))
      ]
