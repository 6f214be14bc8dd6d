-- ===== src/Pool/Steps.antt =====
-- The pool over time: turns of requests, returns of leases, cooldowns, refreshes and disabled accounts,
-- in any order. Each operation is one step.
pub mod Counts
pub mod Accounting
use grokcli2api_go.Prelude.{
  ℕ, zero, suc, ◌+◌, ◌-◌, ◌≤◌, ◌<◌, ◌≡◌, refl, ap, sym, ◌∙◌, subst, String, Bool, true, false,
  Option, none, some, List, [], ◌∷◌, arith, if◌then◌else◌, ltb, leb, eqb, if_both, ◌⊎◌, inl, inr,
  Bool-cases,
}
use grokcli2api_go.Prelude.Map.{lookup}
use grokcli2api_go.Pool.{Credential, Pool, Error, Digest}
use grokcli2api_go.Pool.Heap.{modify, write, give_back, new_lease, has_room}
use grokcli2api_go.Pool.Snapshot.{rebuild_active}
use grokcli2api_go.Pool.Cooldown.{mark_cooldown, mark_model_cooldown, disable}
use grokcli2api_go.Pool.Refresh.{Outcome, ensure_usable, refresh_credential}
use grokcli2api_go.Pool.Acquire.{
  Request, Pass, granted, gave_up, must_wait, Grant, leased, refused, acquire_pass, acquire_id,
}
use grokcli2api_go.Pool.Acquire.Pinned.{acquire_account_for_metadata, lease_for_metadata}
use grokcli2api_go.Pool.Acquire.Load.{
  SameLoad, OneMore, SameLoad-refl, SameLoad-ensure, SameLoad-exchange, SameLoad-rebuild,
  SameLoad-new_lease, account-new_lease,
}
use grokcli2api_go.Pool.Acquire.Load.Turn.{
  LoadOf, LoadOfGrant, acquire_pass-LoadOf, LoadOf-acquire_id,
}

-- A lease that has not been released, and whether the limit applied to it.
pub record OpenLease : Type 0 where
  pub account : ℕ
  pub is_metered : Bool

pub record System : Type 0 where
  pub pool : Pool
  pub leases : List OpenLease

-- Release of the lease at an index, whose once.Do runs the first time only: the lease is then gone.
unfoldable pub release : ℕ → List OpenLease → Option (OpenLease × List OpenLease)
release i [] = none
release zero (l ∷ ls) = some (l, ls)
release (suc i) (l ∷ ls) = elim (release i ls) [ none ↦ none | some r ↦ some (r.0, l ∷ r.1) ]

pub data Step : Type 0 where
  turn : ℕ → Request → List String → Step
  pinned_turn : ℕ → String → String → List String → Step
  metadata_lease : ℕ → String → Step
  release_lease : ℕ → Step
  cool : ℕ → String → String → ℕ → Step
  cool_model : ℕ → String → String → String → ℕ → Step
  turn_off : String → String → Step
  refresh : ℕ → ℕ → Bool → Option ℕ → Step
  rebuild : ℕ → Step

abbrev pub on_pool : (Pool → Pool) → System → System
on_pool f s = record s { pool = f s.pool }

abbrev pub after_pass : List OpenLease → Pool × Pass → System
after_pass leases (pool, granted lease) = record {
  pool = pool;
  leases = record { account = lease.account; is_metered = true } ∷ leases;
}
after_pass leases (pool, gave_up e) = record { pool = pool; leases = leases }
after_pass leases (pool, must_wait failed) = record { pool = pool; leases = leases }

abbrev pub after_grant : Bool → List OpenLease → Pool × Grant → System
after_grant metered leases (pool, leased lease) = record {
  pool = pool;
  leases = record { account = lease.account; is_metered = metered } ∷ leases;
}
after_grant metered leases (pool, refused e) = record { pool = pool; leases = leases }

abbrev pub after_release : System → Option (OpenLease × List OpenLease) → System
after_release s none = s
after_release s (some (l, rest)) = record { pool = give_back s.pool l.account; leases = rest }

module _ (d : Digest) (idp : Credential → Outcome) where
  unfoldable pub take : Step → System → System
  unfolding acquire_pass acquire_id acquire_account_for_metadata release give_back mark_cooldown
      mark_model_cooldown disable refresh_credential rebuild_active
  take (turn now r failed) s = after_pass s.leases (acquire_pass d idp now r failed s.pool)
  take (pinned_turn now id model exclude) s =
      after_grant true s.leases (acquire_id d idp now id model exclude s.pool)
  take (metadata_lease now id) s =
      after_grant false s.leases (acquire_account_for_metadata d idp now id s.pool)
  take (release_lease i) s = after_release s (release i s.leases)
  take (cool now id reason duration) s = on_pool (mark_cooldown now id reason duration) s
  take (cool_model now id model reason duration) s =
      on_pool (mark_model_cooldown now id model reason duration) s
  take (turn_off id reason) s = on_pool (disable d id reason) s
  take (refresh now p force observed) s =
      on_pool (λ q. (refresh_credential d idp now p force observed q).0) s
  take (rebuild now) s = on_pool (rebuild_active now) s

  unfoldable pub take_all : List Step → System → System
  unfolding take
  take_all [] s = s
  take_all (t ∷ ts) s = take_all ts (take t s)
