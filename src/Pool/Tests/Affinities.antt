-- ===== src/Pool/Tests/Affinities.antt =====
-- Runs of the affinity cache and its keys.
use grokcli2api_go.Prelude.{◌≡◌, refl, some, [], ◌∷◌, arith}
use grokcli2api_go.Prelude.Text.{texts_differ}
use grokcli2api_go.Prelude.Map.{lookup}
use grokcli2api_go.Pool.{Affinity, AffinityCache}
use grokcli2api_go.Pool.AffinityKeys.{affinity_model_key_injective, namespace}
use grokcli2api_go.Pool.Shard
use grokcli2api_go.Pool.Shard.Bound
use grokcli2api_go.Pool.Shard.Reads
use grokcli2api_go.Pool.Tests.Data.{plain_digest, two_accounts, request}

abbrev session : Affinity
session = request.affinity

key_example :
    (namespace session ≡ namespace session)
    × (session.key ≡ session.key)
    × (request.model ≡ request.model)
key_example =
    affinity_model_key_injective session session request.model request.model (ground arith)
      (ground arith) (texts_differ "session:1" "" refl) (texts_differ "session:1" "" refl)
      (ground arith) (ground arith) refl

abbrev cache : AffinityCache
cache = two_accounts.affinity

cache-IsWellFormed : Bound.IsWellFormed cache
unfolding lookup
cache-IsWellFormed = record {
  bounded = λ i. ground arith;
  nameless = λ i. refl;
  distinct = λ i. tt;
}

set_bound_example : Bound.IsWellFormed (Shard.set plain_digest cache 5 "k" "a")
set_bound_example =
    Bound.set-IsWellFormed plain_digest cache 5 "k" (texts_differ "k" "" refl) "a" (ground arith)
      cache-IsWellFormed

read_example :
    (Shard.get plain_digest (Shard.set plain_digest cache 5 "k" "a") 100 "k").1 ≡ some "a"
read_example = Reads.get-set plain_digest cache 5 100 "k" "a" (ground arith)

abbrev one_entry : AffinityCache
one_entry = record cache { shards = λ i. ("k", record { account_id = "a"; expires_at = 50 }) ∷ [] }
