-- ===== src/Pool/Backends/Choices.antt =====
-- The accounts that an attempt of AcquireForBackends may use.
use grokcli2api_go.Prelude.{
  ℕ, String, ◌≡◌, refl, ◌∙◌, ap, Bool, true, false, not, ◌&&◌, ◌||◌, Option, none, some, List, [],
  ◌∷◌, is_nil, ◌↔◌, eq_iff, Option-cases, Bool-cases, inl, inr, arith, has, has-append, has-select,
}
use grokcli2api_go.Prelude.Map.{
  Map, lookup, keys, keep, Distinct, has-keys, lookup-keep, found, kept,
}
use grokcli2api_go.Catalog.{ModelDescriptor}
use grokcli2api_go.Pool.{Credential, Account, Pool}
use grokcli2api_go.Pool.Eligibility.{has_model, is_api_key, search_models}
use grokcli2api_go.Pool.Acquire.{Request}
use grokcli2api_go.Pool.Backends.{serves, accounts_for_backend, exclusions_except, narrow}

abbrev pub serves_if_any : Pool → String → String → Bool → Option ℕ → Bool
serves_if_any pool model backend provisional none = false
serves_if_any pool model backend provisional (some p) =
    serves (pool.heap p) model backend provisional

found-kept : {A : Type 0} (f : A → Bool) (o : Option A) → found (kept f o) ≡ true → found o ≡ true
found-kept f none h = h
found-kept f (some a) h = refl

has-exclusions_except :
    (id : String) (allowed all existing : List String)
    → has id (exclusions_except allowed all existing)
      ≡ (has id existing || (has id all && not (has id allowed)))
unfolding exclusions_except
has-exclusions_except id allowed all existing =
    has-append id existing _
    ∙ ap (λ b. has id existing || b) (has-select id (λ i. not (has i allowed)) all)

has-accounts_for_backend :
    (id model backend : String) (provisional : Bool) (pool : Pool)
    → Distinct pool.accounts
    → has id (accounts_for_backend model backend provisional pool)
      ≡ serves_if_any pool model backend provisional (lookup id pool.accounts)
unfolding accounts_for_backend
has-accounts_for_backend id model backend provisional pool d =
    has-keys id (keep test pool.accounts)
    ∙ ap found (lookup-keep test id pool.accounts d)
    ∙ by_entry (lookup id pool.accounts)
  where
    test : String → ℕ → Bool
    test i p = serves (pool.heap p) model backend provisional

    by_entry :
        (o : Option ℕ)
        → found (kept (λ p. serves (pool.heap p) model backend provisional) o)
          ≡ serves_if_any pool model backend provisional o
    by_entry none = refl
    by_entry (some p) = ground arith

-- An account that can serve a model over a backend: it is enabled and has a credential, it describes
-- the model for that backend, and the description is neither hidden nor, for an API key, one that is
-- not supported in the API. For the provisional attempt: it describes no model at all, and its
-- credential lists the model.
abbrev pub CanServe : Account → String → String → Bool → Type 0
CanServe a model backend false =
    (a.disabled ≡ false)
    × (c : Credential) × (a.credential ≡ some c)
    × (descriptor : ModelDescriptor) × (lookup model a.descriptors ≡ some descriptor)
    × (descriptor.backend ≡ backend)
    × (descriptor.hidden ≡ false)
    × ((not (is_api_key c.auth_mode) || descriptor.supported_in_api) ≡ true)
CanServe a model backend true =
    (a.disabled ≡ false)
    × (c : Credential) × (a.credential ≡ some c)
    × (a.descriptors ≡ [])
    × (search_models model c.models ≡ true)

is_nil-lookup :
    (model : String) (m : Map ModelDescriptor) (descriptor : ModelDescriptor)
    → lookup model m ≡ some descriptor
    → is_nil m ≡ false
unfolding lookup
is_nil-lookup model [] descriptor h = cc
is_nil-lookup model (x ∷ m) descriptor h = refl

is_nil_eq : (m : Map ModelDescriptor) → is_nil m ≡ true → m ≡ []
is_nil_eq [] h = refl
is_nil_eq (x ∷ m) h = cc

serves-CanServe :
    (a : Account) (model backend : String) (provisional : Bool)
    → serves a model backend provisional ≡ true
    → CanServe a model backend provisional
unfolding serves has_model
serves-CanServe a model backend false h = elim (Option-cases a.credential) [
  | inl missing ↦ (let h = rw (serves, missing) at h in ground (arith, h))
  | inr held ↦ elim (Option-cases (lookup model a.descriptors)) [
    | inl missing ↦ (let h = rw (serves, held.1, missing) at h in ground (arith, h))
    | inr described ↦
        let some_described = is_nil-lookup model a.descriptors described.0 described.1 in
        let h = rw (serves, has_model, held.1, described.1, some_described) at h in
        (
          ground (arith, h),
          held.0,
          held.1,
          described.0,
          described.1,
          ground (arith, h, eq_iff described.0.backend backend),
          ground (arith, h),
          ground (arith, h),
        )
  ]
]
serves-CanServe a model backend true h = elim (Option-cases a.credential) [
  | inl missing ↦ (let h = rw (serves, missing) at h in ground (arith, h))
  | inr held ↦ elim (Bool-cases (is_nil a.descriptors)) [
    | inr some_described ↦ (let h = rw (serves, held.1, some_described) at h in ground (arith, h))
    | inl none_described ↦
        let h = rw (serves, has_model, held.1, none_described) at h in
        (
          ground (arith, h),
          held.0,
          held.1,
          is_nil_eq a.descriptors none_described,
          ground (arith, h),
        )
  ]
]

CanServe-serves :
    (a : Account) (model backend : String) (provisional : Bool)
    → CanServe a model backend provisional
    → serves a model backend provisional ≡ true
unfolding serves has_model
CanServe-serves a model backend false
      (enabled, c, held, descriptor, described, same, shown, offered) =
    rw (serves, has_model, held, described, is_nil-lookup model a.descriptors descriptor described)
      (ground (arith, enabled, same, shown, offered, eq_iff descriptor.backend backend))
CanServe-serves a model backend true (enabled, c, held, none_described, listed) =
    rw (serves, has_model, held, none_described) (ground (arith, enabled, listed))

exclude-narrow :
    (id : String) (r : Request) (backend : String) (provisional : Bool) (pool : Pool)
    → Distinct pool.accounts
    → found (lookup id pool.accounts) ≡ true
    → has id (narrow r (accounts_for_backend r.model backend provisional pool) pool).exclude ≡ (
        has id r.exclude
        || not (serves_if_any pool r.model backend provisional (lookup id pool.accounts)))
exclude-narrow id r backend provisional pool d h =
    let allowed = accounts_for_backend r.model backend provisional pool in
    ground (
      arith,
      has-exclusions_except id allowed (keys pool.accounts) r.exclude,
      has-accounts_for_backend id r.model backend provisional pool d,
      has-keys id pool.accounts,
      h,
    )

-- An attempt for a backend leaves an account of a pool with no id twice in the choice just if the
-- request did not exclude it and it can serve the model over that backend (or, for the provisional
-- attempt, by a plain list of models).
pub narrow_exact :
    (id : String) (p : ℕ) (r : Request) (backend : String) (provisional : Bool) (pool : Pool)
    → Distinct pool.accounts
    → lookup id pool.accounts ≡ some p
    → (has id (narrow r (accounts_for_backend r.model backend provisional pool) pool).exclude
        ≡ false)
      ↔ ((has id r.exclude ≡ false) × CanServe (pool.heap p) r.model backend provisional)
narrow_exact id p r backend provisional pool d h =
    let a = pool.heap p in
    let whole : has id
          (narrow r (accounts_for_backend r.model backend provisional pool) pool).exclude
        ≡ (has id r.exclude || not (serves a r.model backend provisional)) =
      exclude-narrow id r backend provisional pool d (rw h refl)
      ∙ ap (λ o. has id r.exclude || not (serves_if_any pool r.model backend provisional o)) h in
    (
      λ e. (
        ground (arith, whole, e),
        serves-CanServe a r.model backend provisional (ground (arith, whole, e)),
      ),
      λ e.
          let serving = CanServe-serves a r.model backend provisional e.1 in
          ground (arith, whole, e.0, serving),
    )
