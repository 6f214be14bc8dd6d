-- ===== src/Pool/Acquire/Load.antt =====
-- The counts of requests in flight: what the operations under Acquire do to them.
pub mod Turn
use mathlib.Core.Option.{some-injective}
use grokcli2api_go.Prelude.{
  ℕ, suc, ◌+◌, ◌-◌, ◌≤◌, ◌<◌, String, ◌≡◌, ◌≢◌, refl, ap, sym, ◌∙◌, subst, ◌⊎◌, inl, inr, Bool,
  true, false, not, ◌&&◌, ◌||◌, Option, none, some, List, [], ◌∷◌, arith, if◌then◌else◌, ltb, leb,
  eqb, Bool-cases, Option-cases, if_both, ◌%◌, ◌^◌, length, is_nil, has, ◌==◌,
}
use grokcli2api_go.Prelude.Map.{lookup}
use grokcli2api_go.Pool.{Account, Credential, Pool, Error, no_auth, account_busy, Digest}
use grokcli2api_go.Pool.Eligibility.{usable, available, supports_model}
use grokcli2api_go.Pool.Shard
use grokcli2api_go.Pool.Heap.{
  modify, write, Lease, try_acquire, give_back, new_lease, settle_generation, has_room,
}
use grokcli2api_go.Pool.Snapshot.{rebuild_active, scheduling_snapshot}
use grokcli2api_go.Pool.Cooldown.{mark_cooldown, disable}
use grokcli2api_go.Pool.Refresh.{
  Outcome, renewed, failed, abandoned, refresh_failed, refresh_succeeded, finish_refresh, exchange,
  refresh_credential, ensure_usable,
}
use grokcli2api_go.Pool.Acquire.{
  Request, Pass, granted, gave_up, must_wait, Grant, leased, refused, use_account, take_account,
  select_account, try_batches, lease_account, acquire_id, run_schedule, schedule, after_bound,
  try_bound, acquire_pass, remember, choose, turns, batches, cache_key, is_busy, is_hard, is_soft,
  account_request_usable, Choice,
}

pub record SameLoad (a b : Pool) : Type 0 where
  pub limit : b.account_max_inflight ≡ a.account_max_inflight
  pub load : (q : ℕ) → (b.heap q).inflight ≡ (a.heap q).inflight

pub record OneMore (p : ℕ) (a b : Pool) : Type 0 where
  pub room : has_room a.account_max_inflight (a.heap p).inflight ≡ true
  pub limit : b.account_max_inflight ≡ a.account_max_inflight
  pub load : (q : ℕ) → (b.heap q).inflight ≡ (a.heap q).inflight + (if eqb q p then 1 else 0)

pub SameLoad-refl : (a : Pool) → SameLoad a a
SameLoad-refl a = record { limit = refl; load = λ q. refl }

pub SameLoad-trans : {a b c : Pool} → SameLoad a b → SameLoad b c → SameLoad a c
SameLoad-trans h k = record { limit = k.limit ∙ h.limit; load = λ q. k.load q ∙ h.load q }

pub SameLoad-refresh_failed :
    (d : Digest) (now p : ℕ) (permanent : Bool) (a : Pool)
    → SameLoad a (refresh_failed d now p permanent a)
unfolding refresh_failed disable mark_cooldown
SameLoad-refresh_failed d now p permanent a = record {
  limit = ground arith;
  load = λ q. ground arith;
}

pub SameLoad-refresh_succeeded :
    (now p : ℕ) (next : Credential) (a : Pool) → SameLoad a (refresh_succeeded now p next a).0
unfolding refresh_succeeded
SameLoad-refresh_succeeded now p next a = record { limit = ground arith; load = λ q. ground arith }

pub SameLoad-finish :
    (d : Digest) (now p : ℕ) (o : Outcome) (a : Pool) → SameLoad a (finish_refresh d now p o a).0
SameLoad-finish d now p (renewed c) a = SameLoad-refresh_succeeded now p c a
SameLoad-finish d now p (failed b) a = SameLoad-refresh_failed d now p b a
SameLoad-finish d now p abandoned a = SameLoad-refl a

module _ (d : Digest) (idp : Credential → Outcome) (now p : ℕ) where
  abbrev SameAfter : Pool → Pool × Option Error → Type 0
  SameAfter a r = SameLoad a r.0

  pub SameLoad-exchange :
      (force : Bool) (o : Option Credential) (a : Pool)
      → SameLoad a (exchange d idp now p force o a).0
  SameLoad-exchange force none a = SameLoad-refl a
  SameLoad-exchange force (some c) a =
      if_both (SameAfter a) (a.heap p).disabled _ _ (SameLoad-refl a)
        (if_both (SameAfter a) _ _ _ (SameLoad-refl a) (SameLoad-finish d now p (idp c) a))

  pub SameLoad-ensure : (a : Pool) → SameLoad a (ensure_usable d idp now p a).0
  unfolding ensure_usable
  SameLoad-ensure a =
      if_both (SameAfter a) (a.heap p).disabled _ _ (SameLoad-refl a)
        (by_credential (a.heap p).credential)
    where
      by_credential :
          (o : Option Credential)
          → SameAfter a (elim o [
            | none ↦ (a, some no_auth)
            | some c ↦
                let refreshed = refresh_credential d idp now p false none a in
                if usable c now then (a, none) else refreshed
          ])
      by_credential none = SameLoad-refl a
      by_credential (some c) =
          if_both (SameAfter a) (usable c now) _ _ (SameLoad-refl a)
            (SameLoad-exchange false (a.heap p).credential a)

-- What a lease and its return do to the counts.
OneMore-counted :
    (a : Pool) (p : ℕ)
    → has_room a.account_max_inflight (a.heap p).inflight ≡ true
    → OneMore p a (modify a p (λ x. record x { inflight = x.inflight + 1 }))
unfolding write
OneMore-counted a p h = record { room = h; limit = refl; load = λ q. ground arith }

OneMore-if :
    {a b c : Pool} {p : ℕ} (room : Bool)
    → (if room then some c else none) ≡ some b
    → ((room ≡ true) → OneMore p a c)
    → OneMore p a b
OneMore-if {a} {b} {c} {p} true e h =
    subst (OneMore p a) {x = c} {y = b} (some-injective c b e) (h refl)
OneMore-if {b = b} {c = c} false e h = absurd (none≢some e)
  where
    none≢some : (none ≡ some b) → ⊥
    none≢some e = cc

pub OneMore-try_acquire : (a b : Pool) (p : ℕ) → try_acquire a p ≡ some b → OneMore p a b
unfolding try_acquire
OneMore-try_acquire a b p h =
    OneMore-if {a = a} {b = b} {p = p} (has_room a.account_max_inflight (a.heap p).inflight) h
      (OneMore-counted a p)

pub OneMore-SameLoad : {p : ℕ} {a b c : Pool} → OneMore p a b → SameLoad b c → OneMore p a c
OneMore-SameLoad h k = record {
  room = h.room;
  limit = k.limit ∙ h.limit;
  load = λ q. k.load q ∙ h.load q;
}

pub SameLoad-OneMore : {p : ℕ} {a b c : Pool} → SameLoad a b → OneMore p b c → OneMore p a c
SameLoad-OneMore {p} {a} {b} h k = record {
  room =
      ap (λ l. has_room l (a.heap p).inflight) (sym h.limit)
      ∙ ap (λ n. has_room b.account_max_inflight n) (sym (h.load p))
      ∙ k.room;
  limit = k.limit ∙ h.limit;
  load = λ q. k.load q ∙ ap (λ n. n + (if eqb q p then 1 else 0)) (h.load q);
}

pub SameLoad-give_back : {a b : Pool} (p : ℕ) → OneMore p a b → SameLoad a (give_back b p)
unfolding give_back write
SameLoad-give_back {a} {b} p h = record {
  limit = h.limit;
  load = λ q. ground (arith, h.load q, h.load p);
}

pub SameLoad-new_lease : (a : Pool) (p : ℕ) (model : String) → SameLoad a (new_lease a p model).0
unfolding new_lease write settle_generation
SameLoad-new_lease a p model = record { limit = refl; load = λ q. ground arith }

pub account-new_lease : (a : Pool) (p : ℕ) (model : String) → (new_lease a p model).1.account ≡ p
unfolding new_lease
account-new_lease a p model = refl

pub SameLoad-remember :
    (d : Digest) (now : ℕ) (r : Request) (id : String) (a : Pool)
    → SameLoad a (remember d now r id a)
unfolding remember
SameLoad-remember d now r id a = record { limit = ground arith; load = λ q. ground arith }

pub SameLoad-rebuild : (now : ℕ) (a : Pool) → SameLoad a (rebuild_active now a)
unfolding rebuild_active
SameLoad-rebuild now a = record { limit = refl; load = λ q. refl }
