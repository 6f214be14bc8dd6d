-- ===== src/Pool/Backends.antt =====
-- AcquireForBackends: which accounts a request with preferred backends may use, in which order.
pub mod Choices
use grokcli2api_go.Prelude.{
  ℕ, String, Bool, true, false, not, ◌&&◌, ◌||◌, Option, none, some, List, [], ◌∷◌, ◌++◌, ◌==◌,
  if◌then◌else◌, is_nil, has, select,
}
use grokcli2api_go.Prelude.Map.{Map, lookup, keys, values, keep}
use grokcli2api_go.Catalog.{ModelDescriptor}
use grokcli2api_go.Pool.{Credential, Account, Pool, Error, canceled, no_auth, Digest}
use grokcli2api_go.Pool.Eligibility.{has_model}
use grokcli2api_go.Pool.Cooldown.{unavailable_error}
use grokcli2api_go.Pool.Refresh.{Outcome}
use grokcli2api_go.Pool.Acquire.{Request, Grant, leased, refused, final_error}
use grokcli2api_go.Pool.Acquire.Waiting.{Wake, acquire}

-- descriptor, ok := a.descriptors[model]; ok && descriptor.Backend == backend
abbrev pub has_backend : Option ModelDescriptor → String → Bool
has_backend none backend = false
has_backend (some descriptor) backend = descriptor.backend == backend

abbrev pub serves_with : Account → Option Credential → String → String → Bool → Bool
serves_with a none model backend provisional = false
serves_with a (some c) model backend provisional =
    if provisional
    then is_nil a.descriptors && has_model a.descriptors c model
    else has_backend (lookup model a.descriptors) backend && has_model a.descriptors c model

-- The test of accountsForBackend.
unfoldable pub serves : Account → String → String → Bool → Bool
serves a model backend provisional =
    not a.disabled && serves_with a a.credential model backend provisional

unfoldable pub accounts_for_backend : String → String → Bool → Pool → List String
unfolding serves
accounts_for_backend model backend provisional pool =
    keys (keep (λ id p. serves (pool.heap p) model backend provisional) pool.accounts)

unfoldable pub exclusions_except : List String → List String → List String → List String
exclusions_except allowed all existing = existing ++ select (λ id. not (has id allowed)) all

-- The environment of one attempt: the time, the wakes of its Acquire, and whether the context is
-- done when it has failed.
pub record Attempt : Type 0 where
  pub now : ℕ
  pub wakes : List Wake
  pub is_done : Bool

abbrev pub narrow : Request → List String → Pool → Request
narrow r allowed pool = record r {
  exclude = exclusions_except allowed (keys pool.accounts) r.exclude;
}

module _ (d : Digest) (idp : Credential → Outcome) where
  abbrev pub error_or : Option Error → Error → Error
  error_or none e = e
  error_or (some last) e = last

  unfoldable pub try_provisional : Request → Attempt → Option Error → Pool → Pool × Grant
  unfolding acquire accounts_for_backend exclusions_except
  try_provisional r t last pool =
      let allowed = accounts_for_backend r.model "" true pool in
      if is_nil allowed
      then (pool, refused (error_or last (final_error t.now r.model pool)))
      else acquire d idp t.now t.wakes (narrow r allowed pool) pool

  abbrev pub after_backend :
      Bool → (Option Error → Pool → Pool × Grant) → Pool × Grant → Pool × Grant
  after_backend is_done next (pool, leased lease) = (pool, leased lease)
  after_backend is_done next (pool, refused e) =
      if is_done then (pool, refused e) else next (some e) pool

  -- The loop over the preferred backends.
  unfoldable pub try_backends :
      Request → (String → Attempt) → List String → List String → Option Error → Pool → Pool × Grant
  unfolding try_provisional acquire accounts_for_backend exclusions_except
  try_backends r env seen [] last pool = try_provisional r (env "") last pool
  try_backends r env seen (backend ∷ backends) last pool =
      let skipped = try_backends r env seen backends last pool in
      let none_allowed = try_backends r env (backend ∷ seen) backends last pool in
      let allowed = accounts_for_backend r.model backend false pool in
      let t = env backend in
      if has backend seen
      then skipped
      else if is_nil allowed
      then none_allowed
      else after_backend t.is_done (λ last q. try_backends r env (backend ∷ seen) backends last q)
          (acquire d idp t.now t.wakes (narrow r allowed pool) pool)

  -- AcquireForBackends
  unfoldable pub acquire_for_backends :
      Request → (String → Attempt) → List String → Pool → Pool × Grant
  unfolding try_backends acquire
  acquire_for_backends r env preferred pool =
      let t = env "" in
      if is_nil preferred
      then acquire d idp t.now t.wakes r pool
      else try_backends r env [] preferred none pool
