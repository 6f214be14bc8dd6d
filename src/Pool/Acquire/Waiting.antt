-- ===== src/Pool/Acquire/Waiting.antt =====
-- The loop of Acquire: turns, and waits for capacity between them. What the others do while a request
-- waits, and when it wakes up, is data of the environment: a list of wakes.
use grokcli2api_go.Prelude.{ℕ, List, [], ◌∷◌}
use grokcli2api_go.Pool.{Credential, Pool, no_auth, canceled, Digest}
use grokcli2api_go.Pool.Refresh.{Outcome}
use grokcli2api_go.Pool.Acquire.{
  Request, Pass, granted, gave_up, must_wait, Grant, leased, refused, acquire_pass,
}

-- The three cases of waitForCapacity. `capacity` has the time and what the others did.
pub data Wake : Type 0 where
  capacity : ℕ → (Pool → Pool) → Wake
  context_done : Wake
  pool_closed : Wake

module _ (d : Digest) (idp : Credential → Outcome) where
  unfoldable pub after_turn : List Wake → Request → Pool × Pass → Pool × Grant
  unfolding acquire_pass
  after_turn wakes r (pool, granted lease) = (pool, leased lease)
  after_turn wakes r (pool, gave_up e) = (pool, refused e)
  after_turn [] r (pool, must_wait failed) = (pool, refused canceled)
  after_turn (context_done ∷ wakes) r (pool, must_wait failed) = (pool, refused canceled)
  after_turn (pool_closed ∷ wakes) r (pool, must_wait failed) = (pool, refused no_auth)
  after_turn (capacity now others ∷ wakes) r (pool, must_wait failed) =
      after_turn wakes r (acquire_pass d idp now r failed (others pool))

  -- Acquire. The list of failed refreshes starts empty and lasts for all turns.
  unfoldable pub acquire : ℕ → List Wake → Request → Pool → Pool × Grant
  unfolding after_turn acquire_pass
  acquire now wakes r pool = after_turn wakes r (acquire_pass d idp now r [] pool)
