-- ===== src/Pool/Acquire/Load/Turn.antt =====
-- The counts of requests in flight through the parts of a turn of Acquire.
use grokcli2api_go.Prelude.{
  ℕ, ◌+◌, String, ◌≡◌, refl, sym, subst, Bool, true, false, not, ◌&&◌, ◌||◌, Option, none, some,
  List, [], ◌∷◌, if◌then◌else◌, if_both, ◌%◌, ◌^◌, length, is_nil, has, ◌==◌,
}
use grokcli2api_go.Prelude.Map.{lookup}
use grokcli2api_go.Pool.{Credential, Pool, Error, no_auth, account_busy, Digest}
use grokcli2api_go.Pool.Eligibility.{available, supports_model}
use grokcli2api_go.Pool.Shard
use grokcli2api_go.Pool.Heap.{try_acquire, give_back, new_lease}
use grokcli2api_go.Pool.Snapshot.{rebuild_active, scheduling_snapshot}
use grokcli2api_go.Pool.Refresh.{Outcome, ensure_usable}
use grokcli2api_go.Pool.Acquire.{
  Request, Pass, granted, gave_up, must_wait, Grant, leased, refused, use_account, take_account,
  select_account, try_batches, lease_account, acquire_id, run_schedule, schedule, after_bound,
  try_bound, acquire_pass, remember, choose, turns, batches, cache_key, is_busy, is_hard, is_soft,
  account_request_usable, Choice,
}
use grokcli2api_go.Pool.Acquire.Load.{
  SameLoad, OneMore, SameLoad-refl, SameLoad-trans, SameLoad-ensure, OneMore-try_acquire,
  OneMore-SameLoad, SameLoad-OneMore, SameLoad-give_back, SameLoad-new_lease, account-new_lease,
  SameLoad-remember, SameLoad-rebuild,
}

-- What one result of a turn says of the counts.
abbrev pub LoadOf : Pool → Pool × Pass → Type 0
LoadOf a (b, granted lease) = OneMore lease.account a b
LoadOf a (b, gave_up e) = SameLoad a b
LoadOf a (b, must_wait ids) = SameLoad a b

abbrev pub LoadOfGrant : Pool → Pool × Grant → Type 0
LoadOfGrant a (b, leased lease) = OneMore lease.account a b
LoadOfGrant a (b, refused e) = SameLoad a b

LoadOf-later : {a b : Pool} (r : Pool × Pass) → SameLoad a b → LoadOf b r → LoadOf a r
LoadOf-later (c, granted lease) h k = SameLoad-OneMore h k
LoadOf-later (c, gave_up e) h k = SameLoad-trans h k
LoadOf-later (c, must_wait ids) h k = SameLoad-trans h k

module _ (d : Digest) (idp : Credential → Outcome) (now : ℕ) where
  -- The next batch, as the lemmas below see it.
  abbrev Continues : Pool → (List String → Bool → Pool → Pool × Pass) → Type 0
  Continues a next = (f : List String) (s : Bool) (b : Pool) → SameLoad a b → LoadOf a (next f s b)

  OneMore-new_lease :
      (a b : Pool) (p : ℕ) (model : String)
      → OneMore p a b
      → OneMore (new_lease b p model).1.account a (new_lease b p model).0
  OneMore-new_lease a b p model h =
      subst (λ q. OneMore q a (new_lease b p model).0) (sym (account-new_lease b p model))
        (OneMore-SameLoad h (SameLoad-new_lease b p model))

  LoadOf-use_account :
      (r : Request) (p : ℕ) (id : String) (f : List String) (s : Bool)
      (next : List String → Bool → Pool → Pool × Pass) (a : Pool) (x : Pool × Option Error)
      → Continues a next
      → OneMore p a x.0
      → LoadOf a (use_account d idp now r p id f s next x)
  unfolding use_account
  LoadOf-use_account r p id f s next a (b, none) k h =
      OneMore-new_lease a (remember d now r id b) p r.model
        (OneMore-SameLoad h (SameLoad-remember d now r id b))
  LoadOf-use_account r p id f s next a (b, some e) k h =
      k (id ∷ f) s (give_back b p) (SameLoad-give_back p h)

  LoadOf-take_account :
      (r : Request) (p : ℕ) (f : List String) (s : Bool)
      (next : List String → Bool → Pool → Pool × Pass) (a : Pool) (o : Option Pool)
      → Continues a next
      → try_acquire a p ≡ o
      → LoadOf a (take_account d idp now r p f s next a o)
  unfolding take_account
  LoadOf-take_account r p f s next a none k h = k f true a (SameLoad-refl a)
  LoadOf-take_account r p f s next a (some b) k h =
      LoadOf-use_account r p (a.heap p).id f s next a (ensure_usable d idp now p b) k
        (OneMore-SameLoad (OneMore-try_acquire a b p h) (SameLoad-ensure d idp now p b))

  LoadOf-select_account :
      (r : Request) (f : List String) (s : Bool) (next : List String → Bool → Pool → Pool × Pass)
      (a : Pool) (o : Option Choice)
      → Continues a next
      → LoadOf a (select_account d idp now r f s next a o)
  unfolding select_account
  LoadOf-select_account r f s next a none k = k f s a (SameLoad-refl a)
  LoadOf-select_account r f s next a (some c) k =
      LoadOf-take_account r c.pointer f s next a (try_acquire a c.pointer) k refl

  LoadOf-try_batches :
      (r : Request) (f : List String) (s : Bool) (bs : List (List ℕ)) (a : Pool)
      → LoadOf a (try_batches d idp now r f s bs a)
  unfolding try_batches
  LoadOf-try_batches r f s [] a =
      if_both (λ x. LoadOf a (a, x)) s _ _ (SameLoad-refl a) (SameLoad-refl a)
  LoadOf-try_batches r f s (b ∷ bs) a =
      let c = choose now r.model r.exclude f a none s b in
      LoadOf-select_account r f c.1 (λ f s q. try_batches d idp now r f s bs q) a c.0
        (λ f s q h.
          LoadOf-later (try_batches d idp now r f s bs q) h (LoadOf-try_batches r f s bs q))

  LoadOf-run_schedule :
      (r : Request) (f : List String) (ps : List ℕ) (a : Pool)
      → LoadOf a (run_schedule d idp now r f ps a)
  unfolding run_schedule
  LoadOf-run_schedule r f [] a = SameLoad-refl a
  LoadOf-run_schedule r f (p ∷ ps) a =
      let b = record a { cursor = (a.cursor + 1) % 2 ^ 64 } in
      let active = p ∷ ps in
      let bs = batches (turns active (a.cursor % length active) (length active)) in
      LoadOf-later {a = a} {b = b} (try_batches d idp now r f false bs b)
        (record { limit = refl; load = λ q. refl }) (LoadOf-try_batches r f false bs b)

  LoadOf-schedule : (r : Request) (f : List String) (a : Pool) → LoadOf a (schedule d idp now r f a)
  unfolding schedule
  LoadOf-schedule r f a =
      let b = rebuild_active now a in
      if_both (LoadOf a) (is_nil (scheduling_snapshot a r.model)) _ _
        (LoadOf-later (run_schedule d idp now r f (scheduling_snapshot b r.model) b)
          (SameLoad-rebuild now a) (LoadOf-run_schedule r f (scheduling_snapshot b r.model) b))
        (LoadOf-run_schedule r f (scheduling_snapshot a r.model) a)

  LoadOf-lease_account :
      (a : Pool) (p : ℕ) (model : String) (x : Pool × Option Error)
      → OneMore p a x.0
      → LoadOfGrant a (lease_account d idp now p model x)
  unfolding lease_account
  LoadOf-lease_account a p model (b, none) h = OneMore-new_lease a b p model h
  LoadOf-lease_account a p model (b, some e) h = SameLoad-give_back p h

  pub LoadOf-acquire_id :
      (id model : String) (exclude : List String) (a : Pool)
      → LoadOfGrant a (acquire_id d idp now id model exclude a)
  unfolding acquire_id
  LoadOf-acquire_id id model exclude a =
      if_both (LoadOfGrant a) (has id exclude) _ _ (SameLoad-refl a)
        (by_entry (lookup id a.accounts))
    where
      by_try :
          (p : ℕ) (o : Option Pool)
          → try_acquire a p ≡ o
          → LoadOfGrant a (elim o [
            | none ↦ (a, refused account_busy)
            | some taken ↦ lease_account d idp now p model (ensure_usable d idp now p taken)
          ])
      by_try p none h = SameLoad-refl a
      by_try p (some b) h =
          LoadOf-lease_account a p model (ensure_usable d idp now p b)
            (OneMore-SameLoad (OneMore-try_acquire a b p h) (SameLoad-ensure d idp now p b))

      by_entry :
          (o : Option ℕ)
          → LoadOfGrant a (elim o [
            | none ↦ (a, refused no_auth)
            | some p ↦
                if not (available (a.heap p) now) || not (supports_model (a.heap p) now model)
                then (a, refused no_auth)
                else elim (try_acquire a p) [
                  | none ↦ (a, refused account_busy)
                  | some taken ↦ lease_account d idp now p model (ensure_usable d idp now p taken)
                ]
          ])
      by_entry none = SameLoad-refl a
      by_entry (some p) =
          if_both (LoadOfGrant a)
            (not (available (a.heap p) now) || not (supports_model (a.heap p) now model)) _ _
            (SameLoad-refl a) (by_try p (try_acquire a p) refl)

  LoadOf-after_bound :
      (r : Request) (f : List String) (a : Pool) (x : Pool × Grant)
      → LoadOfGrant a x
      → LoadOf a (after_bound d idp now r f x)
  LoadOf-after_bound r f a (b, leased lease) h = h
  LoadOf-after_bound r f a (b, refused e) h =
      if_both (LoadOf a) (is_busy e && is_hard r.affinity.mode) _ _ h (
        let c =
          if is_busy e
          then b
          else record b { affinity = Shard.forget d b.affinity (cache_key r) } in
        LoadOf-later (schedule d idp now r f c)
          (if_both (SameLoad a) (is_busy e) _ _ h (record { limit = h.limit; load = h.load }))
          (LoadOf-schedule r f c))

  LoadOf-try_bound :
      (r : Request) (f : List String) (a : Pool) (o : Option String)
      → LoadOf a (try_bound d idp now r f a o)
  LoadOf-try_bound r f a none = LoadOf-schedule r f a
  LoadOf-try_bound r f a (some id) =
      let skips = is_soft r.affinity.mode && not (account_request_usable now id a) in
      LoadOf-after_bound r f a
        (if skips then (a, refused account_busy) else acquire_id d idp now id r.model r.exclude a)
        (if_both (LoadOfGrant a) skips (a, refused account_busy)
          (acquire_id d idp now id r.model r.exclude a) (SameLoad-refl a)
          (LoadOf-acquire_id id r.model r.exclude a))

  -- A turn of Acquire that leases an account has found it below the limit and counts one more
  -- request on it. On every other path, and on every other account, the counts stay as they were:
  -- also when a refresh failed after the account was counted, and when an account was disabled or
  -- cooled on the way. The limit stays the same.
  pub acquire_pass-LoadOf :
      (r : Request) (failed : List String) (pool : Pool)
      → LoadOf pool (acquire_pass d idp now r failed pool)
  unfolding acquire_pass
  acquire_pass-LoadOf r f a =
      let (cache, bound) = Shard.get d a.affinity now (cache_key r) in
      let b = record a { affinity = cache } in
      if_both (LoadOf a) (r.affinity.key == "") _ _ (LoadOf-schedule r f a) (
        LoadOf-later {a = a} {b = b} (try_bound d idp now r f b bound)
          (record { limit = refl; load = λ q. refl }) (LoadOf-try_bound r f b bound))
