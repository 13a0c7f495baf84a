-- ===== src/Outbox.antt =====
-- internal/infrastructure/outbox/message.go and config.go: the messages of the email outbox and
-- the relay's configuration. Durations are in nanoseconds, as `time.Duration` is; those of a
-- configuration may be negative, as its numbers may, and an identifier is only compared.
pub mod Shard
pub mod Backoff
pub mod Process
pub mod Collect
pub mod Truncate
pub mod Table
pub mod Tick
pub mod Validate
pub mod Email
pub mod Dedup
pub mod Run
use task_tracker.Base.{
  ℕ, ◌+◌, ◌*◌, ◌≡◌, Bool, true, false, ◌&&◌, not, Option, none, some, List, Text, ℤ, pos, ltb_ℤ,
  leb_ℤ, if◌then◌else◌, arith,
}

pub record Message : Type 0 where
  pub recipient : Text
  pub subject : Text
  pub body : Text

pub record Claimed : Type 0 where
  pub message : Message
  pub id : ℕ
  pub attempts : ℕ

-- One provider verdict: `none` is a nil error.
abbrev pub SendResult : Type 0
SendResult = Option Text

pub record Retry : Type 0 where
  pub last_err : Text
  pub delay : ℤ
  pub id : ℕ

pub record Failure : Type 0 where
  pub last_err : Text
  pub id : ℕ

pub record Config : Type 0 where
  pub tick : ℤ
  pub budget : ℤ
  pub dedup_ttl : ℤ
  pub batch : ℤ
  pub workers : ℤ
  pub max_attempts : ℤ

abbrev pub second : ℕ
second = 1_000_000_000

abbrev pub default_pause : ℕ
default_pause = 30 * second

abbrev pub backoff_cap : ℕ
backoff_cap = 3600 * second

pub data ConfigError : Type 0 where
  bad_tick bad_budget bad_batch bad_workers bad_max_attempts : ConfigError

-- `Config.Validate`: the first complaint, if there is one.
unfoldable pub validate : Config → Option ConfigError
validate c =
    if leb_ℤ c.tick (pos 0)
    then some bad_tick
    else if leb_ℤ c.budget (pos 0)
    then some bad_budget
    else if ltb_ℤ c.batch (pos 1)
    then some bad_batch
    else if ltb_ℤ c.workers (pos 1)
    then some bad_workers
    else if ltb_ℤ c.max_attempts (pos 1)
    then some bad_max_attempts
    else none
