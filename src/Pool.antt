-- ===== src/Pool.antt =====
-- internal/auth/pool.go: the credential pool. Accounts live on a heap, since scheduling snapshots and
-- leases keep pointers to accounts that the pool's map may have dropped. A time counts nanoseconds,
-- and 0 is Go's zero time.
pub mod Eligibility
pub mod AffinityKeys
pub mod Shard
pub mod Heap
pub mod Snapshot
pub mod Cooldown
pub mod Refresh
pub mod Acquire
pub mod Backends
pub mod Steps
mod Tests
use grokcli2api_go.Prelude.{ℕ, String, Bool, Option, List}
use grokcli2api_go.Prelude.Int.{ℤ}
use grokcli2api_go.Prelude.Map.{Map}
use grokcli2api_go.Catalog.{ModelDescriptor}

pub data AuthMode : Type 0 where
  oidc api_key external web_login : AuthMode

-- The fields that scheduling reads. The raw JSON of the file is not modelled.
pub record Credential : Type 0 where
  pub path : String
  pub scope : String
  pub access_token : String
  pub refresh_token : String
  pub auth_mode : AuthMode
  pub expires_at : ℕ
  pub models : List String
  pub models_updated_at : ℕ

pub record CooldownState : Type 0 where
  pub until : ℕ
  pub reason : String

pub record Account : Type 0 where
  pub id : String
  pub credential : Option Credential
  pub descriptors : Map ModelDescriptor
  pub catalog_etag : String
  pub catalog_updated : ℕ
  pub cooldown_until : ℕ
  pub cooldown_cause : String
  pub model_cooldowns : Map CooldownState
  pub disabled : Bool
  pub disable_reason : String
  pub deleting : Bool
  pub generation : ℕ
  pub refresh_fails : ℕ
  pub inflight : ℕ

pub record AccountState : Type 0 where
  pub cooldown_until : ℕ
  pub reason : String
  pub disabled : Bool
  pub credential_fingerprint : String
  pub model_cooldowns : Map CooldownState

pub record CatalogState : Type 0 where
  pub etag : String
  pub updated_at : ℕ
  pub models : Map ModelDescriptor
  pub provisional : List String
  pub first_seen : Map ℤ

pub record AffinityEntry : Type 0 where
  pub account_id : String
  pub expires_at : ℕ

-- The shards are indexed by 0 to 63.
pub record AffinityCache : Type 0 where
  pub shards : ℕ → Map AffinityEntry
  pub ttl : ℕ
  pub limit : ℕ

-- `rebuild_requested` is the token in rebuildCh, `capacity_epoch` counts the channels that
-- notifyCapacity has closed, and `timers` holds the deadlines of rebuildWhenCooldownExpires.
pub record Pool : Type 0 where
  pub account_max_inflight : ℕ
  pub heap : ℕ → Account
  pub accounts : Map ℕ
  pub states : Map AccountState
  pub catalogs : Map CatalogState
  pub active : List ℕ
  pub active_by_model : Map (List ℕ)
  pub cursor : ℕ
  pub affinity : AffinityCache
  pub rebuild_requested : Bool
  pub capacity_epoch : ℕ
  pub timers : List ℕ

pub data AffinityMode : Type 0 where
  affinity_none affinity_soft affinity_hard : AffinityMode

pub record Affinity : Type 0 where
  pub key : String
  pub mode : AffinityMode
  pub tenant : String

pub data Error : Type 0 where
  no_auth : Error
  account_busy : Error
  canceled : Error
  refresh_error : Error
  unavailable : Bool → ℕ → Error
  model_unavailable : String → Error

-- crypto/sha256: the digest of a text in hexadecimal, and its bytes.
pub record Digest : Type 0 where
  pub hex : String → String
  pub byte : String → ℕ → ℕ
