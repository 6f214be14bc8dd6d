-- ===== src/Pool/Acquire/Pinned.antt =====
-- The other ways to an account: by its id, with or without a model, and for metadata; and the
-- affinities that the server sets and drops itself.
use grokcli2api_go.Prelude.{
  ℕ, ◌+◌, String, Bool, true, false, Option, none, some, List, [], ◌∷◌, if◌then◌else◌, ◌==◌,
}
use grokcli2api_go.Prelude.Map.{lookup}
use grokcli2api_go.Pool.{
  Credential, Pool, Affinity, affinity_none, Error, no_auth, canceled, Digest,
}
use grokcli2api_go.Pool.AffinityKeys.{affinity_model_key, ◌then_text◌}
use grokcli2api_go.Pool.Shard
use grokcli2api_go.Pool.Heap.{modify, write, new_lease}
use grokcli2api_go.Pool.Cooldown.{bound_account_unavailable}
use grokcli2api_go.Pool.Refresh.{Outcome, ensure_usable}
use grokcli2api_go.Pool.Acquire.{Grant, leased, refused, acquire_id, is_busy}
use grokcli2api_go.Pool.Acquire.Waiting.{Wake, capacity, context_done, pool_closed}

abbrev pub is_no_auth : Error → Bool
is_no_auth no_auth = true
is_no_auth _ = false

-- AcquireAccountForMetadata, once the account is usable: no limit and no cooldown counts.
abbrev pub lease_for_metadata : ℕ → Pool × Option Error → Pool × Grant
lease_for_metadata p (fresh, some e) = (fresh, refused e)
lease_for_metadata p (fresh, none) =
    let (settled, lease) =
      new_lease (modify fresh p (λ a. record a { inflight = a.inflight + 1 })) p "" in
    (settled, leased lease)

module _ (d : Digest) (idp : Credential → Outcome) where
  -- The loop of AcquireAccount and AcquireAccountForModel: it waits while the account is busy, and
  -- `explain` gives what the two return for another error.
  unfoldable pub wait_for_account :
      (ℕ → Pool → Error → Error) → ℕ → List Wake → String → String → Pool × Grant → Pool × Grant
  unfolding acquire_id
  wait_for_account explain now wakes id model (pool, leased lease) = (pool, leased lease)
  wait_for_account explain now [] id model (pool, refused e) =
      (pool, refused (if is_busy e then canceled else explain now pool e))
  wait_for_account explain now (context_done ∷ wakes) id model (pool, refused e) =
      (pool, refused (if is_busy e then canceled else explain now pool e))
  wait_for_account explain now (pool_closed ∷ wakes) id model (pool, refused e) =
      (pool, refused (if is_busy e then no_auth else explain now pool e))
  wait_for_account explain now (capacity later others ∷ wakes) id model (pool, refused e) =
      let again =
        wait_for_account explain later wakes id model
          (acquire_id d idp later id model [] (others pool)) in
      if is_busy e then again else (pool, refused (explain now pool e))

  unfoldable pub acquire_account : ℕ → List Wake → String → Pool → Pool × Grant
  unfolding wait_for_account acquire_id
  acquire_account now wakes id pool =
      wait_for_account (λ t q e. e) now wakes id "" (acquire_id d idp now id "" [] pool)

  unfoldable pub acquire_account_for_model : ℕ → List Wake → String → String → Pool → Pool × Grant
  unfolding wait_for_account acquire_id
  acquire_account_for_model now wakes id model pool =
      wait_for_account (λ t q e. if is_no_auth e then bound_account_unavailable t id model q else e)
        now wakes id model (acquire_id d idp now id model [] pool)

  unfoldable pub acquire_account_for_metadata : ℕ → String → Pool → Pool × Grant
  unfolding new_lease write ensure_usable
  acquire_account_for_metadata now id pool = elim (lookup id pool.accounts) [
    | none ↦ (pool, refused no_auth)
    | some p ↦
        if (pool.heap p).disabled
        then (pool, refused no_auth)
        else lease_for_metadata p (ensure_usable d idp now p pool)
  ]

-- Pool.Bind
unfoldable pub bind : Digest → ℕ → Affinity → String → String → Pool → Pool
bind d now affinity model account_id pool =
    if affinity.key == "" then pool else if account_id == "" then pool else record pool {
      affinity = Shard.set d pool.affinity now (affinity_model_key affinity model) account_id;
    }

-- Unbind
unfoldable pub unbind : Digest → Affinity → String → Pool → Pool
unbind d affinity model pool =
    if affinity.key == ""
    then pool
    else record pool { affinity = Shard.forget d pool.affinity (affinity_model_key affinity model) }

-- BindResponseIDForTenant
unfoldable pub bind_response_id_for_tenant :
    Digest → ℕ → String → String → String → String → Pool → Pool
unfolding ◌then_text◌
bind_response_id_for_tenant d now tenant response_id model account_id pool =
    if response_id == "" then pool else record pool {
      affinity =
          Shard.set d pool.affinity now
            (affinity_model_key
              (record {
                key = "previous:" then_text response_id;
                mode = affinity_none;
                tenant = tenant;
              })
              model)
            account_id;
    }
