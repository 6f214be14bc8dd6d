-- ===== src/Pool/Steps/Counts.antt =====
-- The count of requests in flight against the open leases, through each kind of step.
use mathlib.Core.Option.{some-injective}
use grokcli2api_go.Prelude.{
  ℕ, zero, suc, ◌+◌, ◌≤◌, ◌<◌, ◌≡◌, refl, ap, sym, ◌∙◌, subst, String, Bool, true, false, Option,
  none, some, List, [], ◌∷◌, arith, if◌then◌else◌, eqb, if_both, inl, inr, Bool-cases,
}
use grokcli2api_go.Pool.{Credential, Pool, Error, Digest}
use grokcli2api_go.Pool.Heap.{settle_generation, modify, write, give_back, has_room}
use grokcli2api_go.Pool.Cooldown.{mark_cooldown, mark_model_cooldown, disable}
use grokcli2api_go.Pool.Refresh.{Outcome, exchange, refresh_credential}
use grokcli2api_go.Pool.Acquire.{Pass, granted, gave_up, must_wait, Grant, leased, refused}
use grokcli2api_go.Pool.Acquire.Pinned.{lease_for_metadata}
use grokcli2api_go.Pool.Acquire.Load.{
  SameLoad, OneMore, SameLoad-trans, SameLoad-exchange, SameLoad-new_lease, account-new_lease,
}
use grokcli2api_go.Pool.Acquire.Load.Turn.{LoadOf, LoadOfGrant}
use grokcli2api_go.Pool.Steps.{OpenLease, System, release, after_pass, after_grant, after_release}

-- The open leases of an account, and those that the limit applied to.
abbrev pub open_leases : ℕ → List OpenLease → ℕ
open_leases q [] = 0
open_leases q (l ∷ ls) = open_leases q ls + (if eqb q l.account then 1 else 0)

abbrev pub metered_leases : ℕ → List OpenLease → ℕ
metered_leases q [] = 0
metered_leases q (l ∷ ls) =
    metered_leases q ls + (if l.is_metered then if eqb q l.account then 1 else 0 else 0)

-- The count of each account is that of its open leases, and the limit holds for the metered ones.
pub record IsAccounted (limit : ℕ) (s : System) : Type 0 where
  pub same_limit : s.pool.account_max_inflight ≡ limit
  pub counted : (q : ℕ) → (s.pool.heap q).inflight ≡ open_leases q s.leases
  pub limited : (q : ℕ) → 1 ≤ limit → metered_leases q s.leases ≤ limit

pub SameLoad-IsAccounted :
    (limit : ℕ) (a b : Pool) (ls : List OpenLease)
    → SameLoad a b
    → IsAccounted limit (record { pool = a; leases = ls })
    → IsAccounted limit (record { pool = b; leases = ls })
SameLoad-IsAccounted limit a b ls h w = record {
  same_limit = h.limit ∙ w.same_limit;
  counted = λ q. h.load q ∙ w.counted q;
  limited = w.limited;
}

metered-le : (q : ℕ) (ls : List OpenLease) → metered_leases q ls ≤ open_leases q ls
metered-le q [] = omega arith
metered-le q (l ∷ ls) = ground (arith, metered-le q ls)

metered-more :
    (limit p : ℕ) (a : Pool) (ls : List OpenLease) (q : ℕ)
    → has_room a.account_max_inflight (a.heap p).inflight ≡ true
    → IsAccounted limit (record { pool = a; leases = ls })
    → 1 ≤ limit
    → metered_leases q (record { account = p; is_metered = true } ∷ ls) ≤ limit
metered-more limit p a ls q r w l = elim (Bool-cases (eqb q p)) [
  | inl same ↦ rw same (
      omega (
        arith,
        metered-le p ls,
        w.counted p,
        room_left,
        (subst (λ n. metered_leases n ls ≤ metered_leases p ls) (sym (same_number same))
            (omega arith)),
      ))
  | inr other ↦ rw other (omega (arith, w.limited q l))
]
  where
    same_number : eqb q p ≡ true → q ≡ p
    same_number h = ground arith

    room_left : (a.heap p).inflight < limit
    room_left = ground (arith, r, w.same_limit, l)

OneMore-IsAccounted :
    (limit p : ℕ) (a b : Pool) (ls : List OpenLease)
    → OneMore p a b
    → IsAccounted limit (record { pool = a; leases = ls })
    → IsAccounted limit
        (record { pool = b; leases = record { account = p; is_metered = true } ∷ ls })
OneMore-IsAccounted limit p a b ls h w = record {
  same_limit = h.limit ∙ w.same_limit;
  counted = λ q. h.load q ∙ ap (λ n. n + (if eqb q p then 1 else 0)) (w.counted q);
  limited = λ q. metered-more limit p a ls q h.room w;
}

pub pass-IsAccounted :
    (limit : ℕ) (a : Pool) (ls : List OpenLease) (r : Pool × Pass)
    → LoadOf a r
    → IsAccounted limit (record { pool = a; leases = ls })
    → IsAccounted limit (after_pass ls r)
pass-IsAccounted limit a ls (b, granted lease) h w =
    OneMore-IsAccounted limit lease.account a b ls h w
pass-IsAccounted limit a ls (b, gave_up e) h w = SameLoad-IsAccounted limit a b ls h w
pass-IsAccounted limit a ls (b, must_wait ids) h w = SameLoad-IsAccounted limit a b ls h w

pub grant-IsAccounted :
    (limit : ℕ) (a : Pool) (ls : List OpenLease) (r : Pool × Grant)
    → LoadOfGrant a r
    → IsAccounted limit (record { pool = a; leases = ls })
    → IsAccounted limit (after_grant true ls r)
grant-IsAccounted limit a ls (b, leased lease) h w =
    OneMore-IsAccounted limit lease.account a b ls h w
grant-IsAccounted limit a ls (b, refused e) h w = SameLoad-IsAccounted limit a b ls h w

-- What the counts of the leases are with and without a released one.
abbrev ReleaseCounts : ℕ → List OpenLease → OpenLease × List OpenLease → Type 0
ReleaseCounts q ls r =
    (open_leases q ls ≡ open_leases q r.1 + (if eqb q r.0.account then 1 else 0))
    × (metered_leases q r.1 ≤ metered_leases q ls)

no_release : {r : OpenLease × List OpenLease} → (none ≡ some r) → ⊥
no_release e = cc

later-counts :
    (i : ℕ) (k : OpenLease) (ls : List OpenLease) (r : OpenLease × List OpenLease) (q : ℕ)
    (o : Option (OpenLease × List OpenLease))
    → ((x : OpenLease × List OpenLease) → o ≡ some x → ReleaseCounts q ls x)
    → elim o as (λ x. Option (OpenLease × List OpenLease)) [
      | none ↦ none
      | some x ↦ some (x.0, k ∷ x.1)
    ]
      ≡ some r
    → ReleaseCounts q (k ∷ ls) r
later-counts i k ls r q none again h = absurd (no_release h)
later-counts i k ls r q (some (m, ms)) again h =
    let c = again (m, ms) refl in
    subst (ReleaseCounts q (k ∷ ls)) (some-injective (m, k ∷ ms) r h)
      (omega (arith, c.0), omega (arith, c.1))

release-counts :
    (i : ℕ) (ls : List OpenLease) (r : OpenLease × List OpenLease) (q : ℕ)
    → release i ls ≡ some r
    → ReleaseCounts q ls r
unfolding release
release-counts i [] r q h = absurd (no_release h)
release-counts zero (k ∷ ls) r q h =
    subst (ReleaseCounts q (k ∷ ls)) (some-injective (k, ls) r h) (refl, ground arith)
release-counts (suc i) (k ∷ ls) r q h =
    later-counts i k ls r q (release i ls) (λ x e. release-counts i ls x q e) h

pub release-IsAccounted :
    (limit i : ℕ) (s : System) (o : Option (OpenLease × List OpenLease))
    → release i s.leases ≡ o
    → IsAccounted limit s
    → IsAccounted limit (after_release s o)
unfolding give_back write
release-IsAccounted limit i s none h w = w
release-IsAccounted limit i s (some (l, rest)) h w = record {
  same_limit = w.same_limit;
  counted = λ q. ground (
    arith,
    w.counted q,
    w.counted l.account,
    (release-counts i s.leases (l, rest) q h).0,
    (release-counts i s.leases (l, rest) l.account h).0,
  );
  limited = λ q b. omega (arith, w.limited q b, (release-counts i s.leases (l, rest) q h).1);
}

pub SameLoad-mark_cooldown :
    (now : ℕ) (id reason : String) (duration : ℕ) (a : Pool)
    → SameLoad a (mark_cooldown now id reason duration a)
unfolding mark_cooldown write
SameLoad-mark_cooldown now id reason duration a = record {
  limit = ground arith;
  load = λ q. ground arith;
}

pub SameLoad-mark_model_cooldown :
    (now : ℕ) (id model reason : String) (duration : ℕ) (a : Pool)
    → SameLoad a (mark_model_cooldown now id model reason duration a)
unfolding mark_model_cooldown mark_cooldown write
SameLoad-mark_model_cooldown now id model reason duration a = record {
  limit = ground arith;
  load = λ q. ground arith;
}

pub SameLoad-disable :
    (d : Digest) (id reason : String) (a : Pool) → SameLoad a (disable d id reason a)
unfolding disable write
SameLoad-disable d id reason a = record { limit = ground arith; load = λ q. ground arith }

SameLoad-settle : (a : Pool) (p : ℕ) → SameLoad a (modify a p settle_generation)
unfolding write settle_generation
SameLoad-settle a p = record { limit = refl; load = λ q. ground arith }

pub SameLoad-refresh :
    (d : Digest) (idp : Credential → Outcome) (now p : ℕ) (force : Bool) (observed : Option ℕ)
    (a : Pool)
    → SameLoad a (refresh_credential d idp now p force observed a).0
unfolding refresh_credential
SameLoad-refresh d idp now p force none a =
    SameLoad-exchange d idp now p force (a.heap p).credential a
SameLoad-refresh d idp now p force (some n) a =
    let settled : Pool = modify a p settle_generation in
    if_both (λ (r : Pool × Option Error). SameLoad a r.0) (eqb (settled.heap p).generation n)
      (exchange d idp now p force (settled.heap p).credential settled) (settled, none)
      (SameLoad-trans (SameLoad-settle a p)
        (SameLoad-exchange d idp now p force (settled.heap p).credential settled))
      (SameLoad-settle a p)

counted_once :
    (b : Pool) (p q : ℕ)
    → ((modify b p (λ x. record x { inflight = x.inflight + 1 })).heap q).inflight
      ≡ (b.heap q).inflight + (if eqb q p then 1 else 0)
unfolding write
counted_once b p q = ground arith

pub metadata-IsAccounted :
    (limit p : ℕ) (a : Pool) (ls : List OpenLease) (r : Pool × Option Error)
    → SameLoad a r.0
    → IsAccounted limit (record { pool = a; leases = ls })
    → IsAccounted limit (after_grant false ls (lease_for_metadata p r))
metadata-IsAccounted limit p a ls (b, some e) h w = SameLoad-IsAccounted limit a b ls h w
metadata-IsAccounted limit p a ls (b, none) h w =
    let c = modify b p (λ x. record x { inflight = x.inflight + 1 }) in
    let k = SameLoad-new_lease c p "" in
    record {
      same_limit = k.limit ∙ h.limit ∙ w.same_limit;
      counted = λ q.
          k.load q
          ∙ counted_once b p q
          ∙ ap (λ n. n + (if eqb q p then 1 else 0)) (h.load q ∙ w.counted q)
          ∙ ap (λ m. open_leases q ls + (if eqb q m then 1 else 0))
              (sym (account-new_lease c p ""));
      limited = λ q l. omega (arith, w.limited q l);
    }
