-- ===== src/Config.antt =====
-- `Config` of internal/config.go and its `Validate`.
use task_tracker.Base.{
  ℕ, suc, ◌+◌, ◌-◌, ◌*◌, Bool, Option, none, some, Text, ascii, ltb, ltb_ℤ, ℤ, pos, negsuc, wrap64,
  if◌then◌else◌,
}
use task_tracker.Outbox
use task_tracker.Outbox.{second, ConfigError}
use task_tracker.Config.Sections.{
  Complaint, StarterConfig, validate_starter, CloserConfig, validate_closer, HttpConfig,
  validate_http, MysqlConfig, validate_mysql, RedisConfig, validate_redis, HealthConfig,
  validate_health, EmailConfig, validate_email, AuthConfig, validate_auth, RateLimitConfig,
  validate_rate_limit, or_then,
}
pub mod Sections
pub mod Accepted
pub mod Whole

pub record AppConfig : Type 0 where
  pub auth : AuthConfig
  pub mysql : MysqlConfig
  pub rate_limit_public : RateLimitConfig
  pub rate_limit : RateLimitConfig
  pub http : HttpConfig
  pub redis : RedisConfig
  pub outbox : Outbox.Config
  pub email : EmailConfig
  pub shutdown : CloserConfig
  pub startup : StarterConfig
  pub health : HealthConfig

-- `dedupGrace` and `settleGrace` of the relay
abbrev pub graces : ℕ
graces = 1 * second + 5 * second

-- `SettleWindow`, an int64 that wraps.
unfoldable pub settle_window : ℤ → ℤ
settle_window (pos budget) = wrap64 (budget + graces)
settle_window (negsuc n) = if ltb n graces then pos (graces - suc n) else negsuc (n - graces)

-- The error of a section under its name, or of the outbox, or the last test.
pub data ConfigIssue : Type 0 where
  in_section : (name : Text) → Complaint → ConfigIssue
  in_outbox : ConfigError → ConfigIssue
  window_too_long : ConfigIssue

-- `config.ValidateField`
abbrev pub validate_field : Text → Option Complaint → Option ConfigIssue
validate_field name none = none
validate_field name (some e) = some (in_section name e)

abbrev pub validate_outbox : Option ConfigError → Option ConfigIssue
validate_outbox none = none
validate_outbox (some e) = some (in_outbox e)

-- `Config.Validate`: the first error.
unfoldable pub validate : {Range : Type 0} → (Text → Option Range) → AppConfig → Option ConfigIssue
validate parse_cidr c = or_then (validate_field (ascii "startup") (validate_starter c.startup)) (
    or_then (validate_field (ascii "http") (validate_http c.http)) (
      or_then (validate_field (ascii "mysql") (validate_mysql c.mysql)) (
        or_then (validate_field (ascii "redis") (validate_redis c.redis)) (
          or_then (validate_field (ascii "shutdown") (validate_closer c.shutdown)) (
            or_then (validate_field (ascii "health") (validate_health c.health)) (
              or_then (validate_field (ascii "auth") (validate_auth c.auth)) (
                or_then (validate_field (ascii "email") (validate_email c.email)) (
                  or_then
                    (validate_field (ascii "rate_limit")
                      (validate_rate_limit parse_cidr c.rate_limit))
                    (or_then
                      (validate_field (ascii "rate_limit_public")
                        (validate_rate_limit parse_cidr c.rate_limit_public))
                      (or_then (validate_outbox (Outbox.validate c.outbox)) (
                        if ltb_ℤ c.shutdown.phase (settle_window c.outbox.budget)
                        then some window_too_long
                        else none)))))))))))
