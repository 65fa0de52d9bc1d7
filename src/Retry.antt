-- ===== src/Retry.antt =====
-- retry.rs: the retry loop with exponential backoff that every RPC call and price source goes
-- through. The closure, the sleep and the random factor act on a world `W`.
pub mod Bounds
use so4_oracle.Prelude.{ℕ, zero, suc, ◌*◌, min, Bool, if◌then◌else◌, String}
use so4_oracle.Prelude.Result.{Result, ok, err}

-- MAX_BACKOFF_DELAY_MS
abbrev pub max_backoff_delay_ms : ℕ
max_backoff_delay_ms = 30_000

-- `sleep_ms(jitter(delay))`: how long the sleep takes is drawn at random, and seen only by the world.
abbrev pub Pause : Type 0 → Type 0
Pause W = ℕ → W → W

module _ {W E T : Type 0} (is_retryable : E → Bool) (pause : Pause W) (f : W → Result E T × W) where
  -- The rounds of `for attempt in 1..=max_attempts`, with `left` more after this one. The error
  -- of the last round is the `last_err` that is returned behind the loop.
  unfoldable pub retry_rounds : ℕ → ℕ → ℕ → W → Result E T × W
  retry_rounds max_delay_ms zero delay_ms w = f w
  retry_rounds max_delay_ms (suc left) delay_ms w =
      let (result, w') = f w in
      elim result [
        | ok value ↦ (ok value, w')
        | err e ↦
            let again =
              retry_rounds max_delay_ms left (min (delay_ms * 2) max_delay_ms)
                (pause delay_ms w') in
            if is_retryable e then again else (err e, w')
      ]

  -- `max_attempts` is `suc left`: the source asserts that it is not 0.
  unfoldable pub retry_with_backoff : ℕ → ℕ → ℕ → W → Result E T × W
  retry_with_backoff left base_delay_ms max_delay_ms w =
      retry_rounds max_delay_ms left (min base_delay_ms max_delay_ms) w
