-- ===== src/Outbox/Backoff.antt =====
-- `backoff` of internal/infrastructure/outbox/relay.go. `math.Pow` is exact for the attempts that
-- matter (a float64 holds every integer below 2 ^ 53, so up to attempt 9741); the product with
-- `time.Second` is an int64 and wraps. The float product with the random jitter is a parameter.
pub mod Delay
use task_tracker.Base.{ℕ, ◌*◌, ◌^◌, Bool, ℤ, pos, wrap64, ltb_ℤ, if◌then◌else◌}
use task_tracker.Outbox.{second, backoff_cap}

-- The delay before the jitter.
unfoldable pub base_delay : ℕ → ℤ
base_delay attempt =
    let d = wrap64 (attempt ^ 4 * second) in
    if ltb_ℤ (pos backoff_cap) d then pos backoff_cap else d

-- `jitter d` stands for `time.Duration(float64(d) * jitter)`.
unfoldable pub backoff : (ℤ → ℤ) → ℕ → ℤ
unfolding base_delay
backoff jitter attempt = jitter (base_delay attempt)
