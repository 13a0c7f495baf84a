-- ===== src/RateLimit.antt =====
-- internal/infrastructure/ratelimit: limiter.go and config.go. The limiter asks redis_rate, a
-- third-party package, whose answer for a key is an argument.
use task_tracker.Base.{ℕ, Bool, true, false, ◌++◌, Text, ascii, ◌==◌, if◌then◌else◌}

-- What `redis_rate.Limiter.Allow` returns.
pub data Rated : Type 0 where
  cancelled unavailable : Rated
  rated : (allowed : ℕ) → (retry_after : ℕ) → Rated

-- The two results of `Limiter.Allow`, and whether `unavailableTotal` was increased.
pub record Allowance : Type 0 where
  pub allowed : Bool
  pub retry_after : ℕ
  pub counted : Bool

abbrev allowance : Rated → Allowance
allowance cancelled = record { allowed = true; retry_after = 0; counted = false }
allowance unavailable = record { allowed = true; retry_after = 0; counted = true }
allowance (rated n retry_after) =
    if n == 0
    then record { allowed = false; retry_after = retry_after; counted = false }
    else record { allowed = true; retry_after = 0; counted = false }

-- `Limiter.Allow`
unfoldable pub allow : (Text → Rated) → Text → Allowance
allow ask key = allowance (ask (ascii "rate:" ++ key))
