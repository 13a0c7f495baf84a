-- ===== src/Config/Accepted.antt =====
-- When `Config.Validate` of internal/config.go accepts a configuration.
use task_tracker.Base.{
  ℕ, zero, suc, ◌*◌, ◌/◌, ◌≤◌, ◌≡◌, ◌≢◌, ◌↔◌, ◌⊎◌, refl, false, ◌||◌, none, some, [], ◌∷◌, Text,
  length, ltb, ltb_ℤ, ℤ, pos, negsuc, pos_part, ◌≤ℤ◌, arith, if◌then◌else◌,
}
use task_tracker.Outbox.Validate.{IsPositive}
use task_tracker.Config.Sections.{
  is_empty, not_positive, is_zero, or_then, Complaint, StarterConfig, validate_starter,
  CloserConfig, validate_closer, HttpConfig, validate_http, MysqlConfig, validate_mysql,
  RedisConfig, validate_redis, HealthConfig, validate_health, EmailConfig, validate_email,
  IdentityConfig, validate_identity, AuthConfig, validate_auth, min_secret_len,
}

pub not_positive_iff : (z : ℤ) → (not_positive z ≡ false) ↔ IsPositive z
not_positive_iff (pos n) = ground arith
not_positive_iff (negsuc n) = ground arith

pub below_one_iff : (z : ℤ) → (ltb_ℤ z (pos 1) ≡ false) ↔ IsPositive z
below_one_iff (pos n) = ground arith
below_one_iff (negsuc n) = ground arith

is_empty_iff : (s : Text) → (is_empty s ≡ false) ↔ (s ≢ [])
is_empty_iff [] = ((λ e. cc), λ some_text. absurd (some_text refl))
is_empty_iff (b ∷ s) = ((λ e f. cc), λ some_text. refl)

pub starter_iff : (c : StarterConfig) → (validate_starter c ≡ none) ↔ IsPositive c.timeout
unfolding validate_starter
starter_iff c = let (a, b) = not_positive_iff c.timeout in ground arith

-- Both phases of a shutdown fit into its total.
abbrev pub CloserSound : CloserConfig → Type 0
CloserSound c = IsPositive c.total × IsPositive c.phase × (2 * pos_part c.phase ≤ pos_part c.total)

above_half : (total : ℕ) (z : ℤ) → (ltb_ℤ (pos (total / 2)) z ≡ false) ↔ (2 * pos_part z ≤ total)
above_half total (pos n) = ground arith
above_half total (negsuc n) = ground arith

pub closer_iff : (c : CloserConfig) → (validate_closer c ≡ none) ↔ CloserSound c
unfolding validate_closer
closer_iff c =
    let (a, b) = not_positive_iff c.total in
    let (d, e) = not_positive_iff c.phase in
    let (f, g) = above_half (pos_part c.total) c.phase in ground arith

abbrev pub HttpSound : HttpConfig → Type 0
HttpSound c =
    (c.addr ≢ [])
    × IsPositive c.read_timeout
    × IsPositive c.write_timeout
    × IsPositive c.idle_timeout

pub http_iff : (c : HttpConfig) → (validate_http c ≡ none) ↔ HttpSound c
unfolding validate_http
http_iff c =
    let (a, b) = is_empty_iff c.addr in
    let (d, e) = not_positive_iff c.read_timeout in
    let (f, g) = not_positive_iff c.write_timeout in
    let (h, i) = not_positive_iff c.idle_timeout in ground arith

abbrev pub MysqlSound : MysqlConfig → Type 0
MysqlSound c =
    (c.dsn ≢ [])
    × IsPositive c.max_open_conns
    × (pos 0 ≤ℤ c.max_idle_conns)
    × IsPositive c.conn_max_lifetime

negative_iff : (z : ℤ) → (ltb_ℤ z (pos 0) ≡ false) ↔ (pos 0 ≤ℤ z)
negative_iff (pos n) = ground arith
negative_iff (negsuc n) = ground arith

pub mysql_iff : (c : MysqlConfig) → (validate_mysql c ≡ none) ↔ MysqlSound c
unfolding validate_mysql
mysql_iff c =
    let (a, b) = is_empty_iff c.dsn in
    let (d, e) = not_positive_iff c.max_open_conns in
    let (f, g) = negative_iff c.max_idle_conns in
    let (h, i) = not_positive_iff c.conn_max_lifetime in ground arith

-- Retries are counted, or switched off by -1.
abbrev pub RedisSound : RedisConfig → Type 0
RedisSound c =
    (c.addr ≢ [])
    × (pos 0 ≤ℤ c.db)
    × IsPositive c.tasks_ttl
    × IsPositive c.dial_timeout
    × IsPositive c.read_timeout
    × IsPositive c.write_timeout
    × ((c.max_retries ≡ negsuc 0) ⊎ IsPositive c.max_retries)
    × IsPositive c.dialer_retries

retries_iff :
    (z : ℤ) → ((ltb_ℤ z (negsuc 0) || is_zero z) ≡ false) ↔ ((z ≡ negsuc 0) ⊎ IsPositive z)
retries_iff (pos zero) = ground arith
retries_iff (pos (suc n)) = ground arith
retries_iff (negsuc zero) = ground arith
retries_iff (negsuc (suc n)) = ground arith

pub redis_iff : (c : RedisConfig) → (validate_redis c ≡ none) ↔ RedisSound c
unfolding validate_redis
redis_iff c =
    let (a, b) = is_empty_iff c.addr in
    let (d, e) = negative_iff c.db in
    let (f, g) = not_positive_iff c.tasks_ttl in
    let (h, i) = not_positive_iff c.dial_timeout in
    let (j, k) = not_positive_iff c.read_timeout in
    let (l, m) = not_positive_iff c.write_timeout in
    let (n, o) = retries_iff c.max_retries in
    let (p, q) = below_one_iff c.dialer_retries in ground arith

pub health_iff : (c : HealthConfig) → (validate_health c ≡ none) ↔ IsPositive c.check_timeout
unfolding validate_health
health_iff c = let (a, b) = not_positive_iff c.check_timeout in ground arith

abbrev pub EmailSound : EmailConfig → Type 0
EmailSound c = (1 ≤ c.max_failures) × IsPositive c.open_for × IsPositive c.timeout

pub email_iff : (c : EmailConfig) → (validate_email c ≡ none) ↔ EmailSound c
unfolding validate_email
email_iff c =
    let (a, b) = not_positive_iff c.open_for in
    let (d, e) = not_positive_iff c.timeout in ground arith

abbrev pub IdentitySound : IdentityConfig → Type 0
IdentitySound c = (min_secret_len ≤ length c.secret) × IsPositive c.ttl

secret_iff :
    (s : Text)
    → (or_then
          (if is_empty s then some Complaint.secret_missing else none)
          (if ltb (length s) min_secret_len then some Complaint.secret_too_short else none)
        ≡ none)
      ↔ (min_secret_len ≤ length s)
secret_iff [] = ground arith
secret_iff (b ∷ s) = ground arith

pub identity_iff : (c : IdentityConfig) → (validate_identity c ≡ none) ↔ IdentitySound c
unfolding validate_identity
identity_iff c =
    let (a, b) = secret_iff c.secret in let (d, e) = not_positive_iff c.ttl in ground arith

abbrev pub AuthSound : AuthConfig → Type 0
AuthSound c =
    IdentitySound c.identity × (10 ≤ pos_part c.password_cost) × (pos_part c.password_cost ≤ 15)

cost_iff :
    (z : ℤ)
    → ((ltb_ℤ z (pos 10) || ltb_ℤ (pos 15) z) ≡ false) ↔ ((10 ≤ pos_part z) × (pos_part z ≤ 15))
cost_iff (pos n) = ground arith
cost_iff (negsuc n) = ground arith

pub auth_iff : (c : AuthConfig) → (validate_auth c ≡ none) ↔ AuthSound c
unfolding validate_auth
auth_iff c =
    let (a, b) = identity_iff c.identity in let (d, e) = cost_iff c.password_cost in ground arith
