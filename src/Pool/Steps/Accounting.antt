-- ===== src/Pool/Steps/Accounting.antt =====
-- The accounts of the pool over time: each count of requests in flight is exact, so that giving a lease
-- back never takes one from 0, and the limit holds.
use grokcli2api_go.Prelude.{
  ℕ, refl, String, false, Option, none, some, List, [], ◌∷◌, if◌then◌else◌, if_both,
}
use grokcli2api_go.Prelude.Map.{lookup}
use grokcli2api_go.Pool.{Credential, Pool, no_auth, Digest}
use grokcli2api_go.Pool.Snapshot.{rebuild_active}
use grokcli2api_go.Pool.Cooldown.{mark_cooldown, mark_model_cooldown, disable}
use grokcli2api_go.Pool.Refresh.{Outcome, ensure_usable, refresh_credential}
use grokcli2api_go.Pool.Acquire.{Grant, refused, acquire_pass, acquire_id}
use grokcli2api_go.Pool.Acquire.Pinned.{acquire_account_for_metadata, lease_for_metadata}
use grokcli2api_go.Pool.Acquire.Load.{SameLoad-ensure, SameLoad-rebuild}
use grokcli2api_go.Pool.Acquire.Load.Turn.{acquire_pass-LoadOf, LoadOf-acquire_id}
use grokcli2api_go.Pool.Steps.{
  System, release, Step, turn, pinned_turn, metadata_lease, release_lease, cool, cool_model,
  turn_off, refresh, rebuild, after_grant, take, take_all,
}
use grokcli2api_go.Pool.Steps.Counts.{
  IsAccounted, SameLoad-IsAccounted, pass-IsAccounted, grant-IsAccounted, release-IsAccounted,
  SameLoad-mark_cooldown, SameLoad-mark_model_cooldown, SameLoad-disable, SameLoad-refresh,
  metadata-IsAccounted,
}

module _ (d : Digest) (idp : Credential → Outcome) (limit : ℕ) where
  acquire_metadata-IsAccounted :
      (now : ℕ) (id : String) (s : System)
      → IsAccounted limit s
      → IsAccounted limit
          (after_grant false s.leases (acquire_account_for_metadata d idp now id s.pool))
  unfolding acquire_account_for_metadata
  acquire_metadata-IsAccounted now id s w = by_entry (lookup id s.pool.accounts)
    where
      by_entry :
          (o : Option ℕ)
          → IsAccounted limit (
              after_grant false s.leases (elim o as (λ x. Pool × Grant) [
                | none ↦ (s.pool, refused no_auth)
                | some p ↦
                    if (s.pool.heap p).disabled
                    then (s.pool, refused no_auth)
                    else lease_for_metadata p (ensure_usable d idp now p s.pool)
              ]))
      by_entry none = w
      by_entry (some p) =
          if_both (λ (r : Pool × Grant). IsAccounted limit (after_grant false s.leases r))
            (s.pool.heap p).disabled (s.pool, refused no_auth)
            (lease_for_metadata p (ensure_usable d idp now p s.pool)) w
            (metadata-IsAccounted limit p s.pool s.leases (ensure_usable d idp now p s.pool)
              (SameLoad-ensure d idp now p s.pool) w)

  take-IsAccounted :
      (t : Step) (s : System) → IsAccounted limit s → IsAccounted limit (take d idp t s)
  unfolding take
  take-IsAccounted (turn now r failed) s w =
      pass-IsAccounted limit s.pool s.leases (acquire_pass d idp now r failed s.pool)
        (acquire_pass-LoadOf d idp now r failed s.pool) w
  take-IsAccounted (pinned_turn now id model exclude) s w =
      grant-IsAccounted limit s.pool s.leases (acquire_id d idp now id model exclude s.pool)
        (LoadOf-acquire_id d idp now id model exclude s.pool) w
  take-IsAccounted (metadata_lease now id) s w = acquire_metadata-IsAccounted now id s w
  take-IsAccounted (release_lease i) s w = release-IsAccounted limit i s (release i s.leases) refl w
  take-IsAccounted (cool now id reason duration) s w =
      SameLoad-IsAccounted limit s.pool (mark_cooldown now id reason duration s.pool) s.leases
        (SameLoad-mark_cooldown now id reason duration s.pool) w
  take-IsAccounted (cool_model now id model reason duration) s w =
      SameLoad-IsAccounted limit s.pool (mark_model_cooldown now id model reason duration s.pool)
        s.leases (SameLoad-mark_model_cooldown now id model reason duration s.pool) w
  take-IsAccounted (turn_off id reason) s w =
      SameLoad-IsAccounted limit s.pool (disable d id reason s.pool) s.leases
        (SameLoad-disable d id reason s.pool) w
  take-IsAccounted (refresh now p force observed) s w =
      SameLoad-IsAccounted limit s.pool (refresh_credential d idp now p force observed s.pool).0
        s.leases (SameLoad-refresh d idp now p force observed s.pool) w
  take-IsAccounted (rebuild now) s w =
      SameLoad-IsAccounted limit s.pool (rebuild_active now s.pool) s.leases
        (SameLoad-rebuild now s.pool) w

  -- In every sequence of steps from an accounted state, the count of requests in flight of each
  -- account stays the number of its leases that have not been released, and with a limit of at least
  -- one, of the leases of an account no more than the limit come from requests. Leases for metadata
  -- are in the count, and the limit does not bound them.
  pub take_all-IsAccounted :
      (ts : List Step) (s : System) → IsAccounted limit s → IsAccounted limit (take_all d idp ts s)
  unfolding take_all
  take_all-IsAccounted [] s w = w
  take_all-IsAccounted (t ∷ ts) s w =
      take_all-IsAccounted ts (take d idp t s) (take-IsAccounted t s w)
