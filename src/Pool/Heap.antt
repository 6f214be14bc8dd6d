-- ===== src/Pool/Heap.antt =====
-- Pointers to accounts, and the small operations of the pool that write through them.
use grokcli2api_go.Prelude.{
  ℕ, ◌+◌, ◌-◌, String, ◌≡◌, ◌≢◌, Bool, true, not, Option, none, some, arith, if◌then◌else◌, ltb,
  eqb, is_nil,
}
use grokcli2api_go.Prelude.Map.{lookup}
use grokcli2api_go.Catalog.{ModelDescriptor}
use grokcli2api_go.Pool.{Credential, Account, Pool}

unfoldable pub write : (ℕ → Account) → ℕ → Account → ℕ → Account
write h p a q = if eqb q p then a else h q

abbrev pub modify : Pool → ℕ → (Account → Account) → Pool
modify pool p f = record pool { heap = write pool.heap p (f (pool.heap p)) }

pub write_self : (h : ℕ → Account) (p : ℕ) (a : Account) → write h p a p ≡ a
unfolding write
write_self h p a = ground arith

pub write_other : (h : ℕ → Account) (p q : ℕ) (a : Account) → q ≢ p → write h p a q ≡ h q
unfolding write
write_other h p q a n = ground arith

-- len(p.accounts) > 0
unfoldable pub has_accounts : Pool → Bool
has_accounts pool = not (is_nil pool.accounts)

-- notifyCapacity: everyone who waits on the old channel wakes up.
unfoldable pub notify_capacity : Pool → Pool
notify_capacity pool = record pool { capacity_epoch = pool.capacity_epoch + 1 }

-- requestRebuild: the channel holds one token.
unfoldable pub request_rebuild : Pool → Pool
request_rebuild pool = record pool { rebuild_requested = true }

-- The test of tryAcquire.
abbrev pub has_room : ℕ → ℕ → Bool
has_room limit inflight = if ltb limit 1 then true else ltb inflight limit

-- tryAcquire: the new state, or none when the account is at its limit.
unfoldable pub try_acquire : Pool → ℕ → Option Pool
try_acquire pool p =
    if has_room pool.account_max_inflight (pool.heap p).inflight
    then some (modify pool p (λ a. record a { inflight = a.inflight + 1 }))
    else none

-- inflight.Add(-1), then notifyCapacity. The count of an account with an open lease is positive, so
-- that the subtraction is exact (Steps).
unfoldable pub give_back : Pool → ℕ → Pool
unfolding notify_capacity
give_back pool p = notify_capacity (modify pool p (λ a. record a { inflight = a.inflight - 1 }))

pub record Lease : Type 0 where
  pub account : ℕ
  pub credential : Option Credential
  pub generation : ℕ
  pub model : String
  pub descriptor : Option ModelDescriptor

-- currentGeneration, which turns 0 into 1 before it reads.
unfoldable pub settle_generation : Account → Account
settle_generation a = if eqb a.generation 0 then record a { generation = 1 } else a

unfoldable pub new_lease : Pool → ℕ → String → Pool × Lease
unfolding settle_generation
new_lease pool p model =
    let a = settle_generation (pool.heap p) in
    (
      modify pool p settle_generation,
      record {
        account = p;
        credential = a.credential;
        generation = a.generation;
        model = model;
        descriptor = lookup model a.descriptors;
      },
    )
