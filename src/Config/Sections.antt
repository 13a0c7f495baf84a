-- ===== src/Config/Sections.antt =====
-- The sections of the configuration, with their `Validate` methods: internal/config.go,
-- internal/identity/config.go, and config.go of persistence, cache, email, health, ratelimit and
-- lifecycle in internal/infrastructure. A duration is in nanoseconds; an error is named, not worded.
use task_tracker.Base.{
  ℕ, ◌/◌, Bool, true, false, ◌||◌, Option, none, some, List, [], ◌∷◌, Text, length, ltb, ℤ, pos,
  negsuc, pos_part, leb_ℤ, ltb_ℤ, ◌==◌, if◌then◌else◌,
}

pub data Complaint : Type 0 where
  timeout_not_positive phase_too_long addr_missing dsn_missing : Complaint
  bad_open_conns bad_idle_conns bad_lifetime bad_db bad_ttl bad_retries : Complaint
  secret_missing secret_too_short bad_password_cost : Complaint
  bad_max_failures bad_requests bad_window bad_cidr : Complaint

abbrev pub is_empty : Text → Bool
is_empty [] = true
is_empty (_ ∷ _) = false

-- `d <= 0`
abbrev pub not_positive : ℤ → Bool
not_positive d = leb_ℤ d (pos 0)

-- lifecycle: starter.go
pub record StarterConfig : Type 0 where
  pub timeout : ℤ

unfoldable pub validate_starter : StarterConfig → Option Complaint
validate_starter c = if not_positive c.timeout then some timeout_not_positive else none

-- lifecycle: closer.go; the half of the total is taken of a total above zero.
pub record CloserConfig : Type 0 where
  pub total : ℤ
  pub phase : ℤ

unfoldable pub validate_closer : CloserConfig → Option Complaint
validate_closer c =
    if not_positive c.total || not_positive c.phase
    then some timeout_not_positive
    else if ltb_ℤ (pos (pos_part c.total / 2)) c.phase
    then some phase_too_long
    else none

pub record HttpConfig : Type 0 where
  pub addr : Text
  pub read_timeout : ℤ
  pub write_timeout : ℤ
  pub idle_timeout : ℤ

unfoldable pub validate_http : HttpConfig → Option Complaint
validate_http c =
    if is_empty c.addr
    then some addr_missing
    else if not_positive c.read_timeout
        || (not_positive c.write_timeout || not_positive c.idle_timeout)
    then some timeout_not_positive
    else none

pub record MysqlConfig : Type 0 where
  pub dsn : Text
  pub conn_max_lifetime : ℤ
  pub max_open_conns : ℤ
  pub max_idle_conns : ℤ

unfoldable pub validate_mysql : MysqlConfig → Option Complaint
validate_mysql c =
    if is_empty c.dsn
    then some dsn_missing
    else if not_positive c.max_open_conns
    then some bad_open_conns
    else if ltb_ℤ c.max_idle_conns (pos 0)
    then some bad_idle_conns
    else if not_positive c.conn_max_lifetime
    then some bad_lifetime
    else none

pub record RedisConfig : Type 0 where
  pub addr : Text
  pub password : Text
  pub db : ℤ
  pub tasks_ttl : ℤ
  pub dial_timeout : ℤ
  pub read_timeout : ℤ
  pub write_timeout : ℤ
  pub max_retries : ℤ
  pub dialer_retries : ℤ

abbrev pub is_zero : ℤ → Bool
is_zero (pos n) = n == 0
is_zero (negsuc n) = false

unfoldable pub validate_redis : RedisConfig → Option Complaint
validate_redis c =
    if is_empty c.addr
    then some addr_missing
    else if ltb_ℤ c.db (pos 0)
    then some bad_db
    else if not_positive c.tasks_ttl
    then some bad_ttl
    else if not_positive c.dial_timeout
    then some timeout_not_positive
    else if not_positive c.read_timeout || not_positive c.write_timeout
    then some timeout_not_positive
    else if ltb_ℤ c.max_retries (negsuc 0) || is_zero c.max_retries
    then some bad_retries
    else if ltb_ℤ c.dialer_retries (pos 1)
    then some bad_retries
    else none

pub record HealthConfig : Type 0 where
  pub check_timeout : ℤ

unfoldable pub validate_health : HealthConfig → Option Complaint
validate_health c = if not_positive c.check_timeout then some timeout_not_positive else none

pub record EmailConfig : Type 0 where
  pub max_failures : ℕ
  pub open_for : ℤ
  pub timeout : ℤ

unfoldable pub validate_email : EmailConfig → Option Complaint
validate_email c =
    if c.max_failures == 0
    then some bad_max_failures
    else if not_positive c.open_for
    then some timeout_not_positive
    else if not_positive c.timeout
    then some timeout_not_positive
    else none

-- identity
pub record IdentityConfig : Type 0 where
  pub secret : Text
  pub ttl : ℤ

abbrev pub min_secret_len : ℕ
min_secret_len = 32

unfoldable pub validate_identity : IdentityConfig → Option Complaint
validate_identity c =
    if is_empty c.secret
    then some secret_missing
    else if ltb (length c.secret) min_secret_len
    then some secret_too_short
    else if not_positive c.ttl
    then some bad_ttl
    else none

pub record AuthConfig : Type 0 where
  pub identity : IdentityConfig
  pub password_cost : ℤ

abbrev pub or_then : {E : Type 0} → Option E → Option E → Option E
or_then none next = next
or_then (some e) next = some e

unfoldable pub validate_auth : AuthConfig → Option Complaint
unfolding validate_identity
validate_auth c = or_then (validate_identity c.identity) (
    if ltb_ℤ c.password_cost (pos 10) || ltb_ℤ (pos 15) c.password_cost
    then some bad_password_cost
    else none)

pub record RateLimitConfig : Type 0 where
  pub trusted_cidrs : List Text
  pub requests : ℤ
  pub window : ℤ

-- `net.ParseCIDR` is an argument.
module _ {Range : Type 0} (parse_cidr : Text → Option Range) where
  abbrev cidr_error : Option Range → Option Complaint → Option Complaint
  cidr_error none rest = some bad_cidr
  cidr_error (some _) rest = rest

  -- The loop over the addresses: the first that does not parse.
  unfoldable pub check_cidrs : List Text → Option Complaint
  check_cidrs [] = none
  check_cidrs (cidr ∷ cidrs) = cidr_error (parse_cidr cidr) (check_cidrs cidrs)

  unfoldable pub validate_rate_limit : RateLimitConfig → Option Complaint
  unfolding check_cidrs
  validate_rate_limit c =
      if ltb_ℤ c.requests (pos 1)
      then some bad_requests
      else if not_positive c.window
      then some bad_window
      else check_cidrs c.trusted_cidrs

  abbrev with_net : Option Range → List Range → List Range
  with_net none nets = nets
  with_net (some n) nets = n ∷ nets

  -- `Config.TrustedNets`
  unfoldable pub trusted_nets : List Text → List Range
  trusted_nets [] = []
  trusted_nets (cidr ∷ cidrs) = with_net (parse_cidr cidr) (trusted_nets cidrs)
