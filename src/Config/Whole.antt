-- ===== src/Config/Whole.antt =====
-- `Config.Validate` of internal/config.go accepts exactly the configurations whose sections are sound and
-- whose outbox settles within a phase of the shutdown.
use task_tracker.Base.{
  ◌+◌, ◌^◌, ◌≤◌, ◌<◌, ◌≡◌, ◌↔◌, refl, false, Option, none, some, List, [], ◌∷◌, Text, All, ltb_ℤ, ℤ,
  pos, negsuc, pos_part, arith, Option-cases, inl, inr,
}
use task_tracker.Outbox
use task_tracker.Outbox.{ConfigError}
use task_tracker.Outbox.Validate.{IsPositive, validate-none_iff}
use task_tracker.Config.Sections.{
  validate_starter, validate_http, validate_mysql, validate_redis, validate_closer, validate_health,
  validate_auth, validate_email, RateLimitConfig, check_cidrs, validate_rate_limit,
}
use task_tracker.Config.Accepted.{
  not_positive_iff, below_one_iff, starter_iff, CloserSound, closer_iff, HttpSound, http_iff,
  MysqlSound, mysql_iff, RedisSound, redis_iff, health_iff, EmailSound, email_iff, AuthSound,
  auth_iff,
}
use task_tracker.Config.{AppConfig, graces, settle_window, validate}

module _ {Range : Type 0} (parse_cidr : Text → Option Range) where
  abbrev Parses : Text → Type 0
  Parses cidr = (n : Range) × (parse_cidr cidr ≡ some n)

  check_cidrs_iff : (cidrs : List Text) → (check_cidrs parse_cidr cidrs ≡ none) ↔ All Parses cidrs
  unfolding check_cidrs
  check_cidrs_iff [] = ((λ e. tt), λ _. refl)
  check_cidrs_iff (cidr ∷ cidrs) = elim (Option-cases (parse_cidr cidr)) [
    | inl bad ↦ rw bad ((λ e. cc), λ all. let (n, good) = all.0 in cc)
    | inr (n, good) ↦
        rw good
          ((λ e. ((n, refl), (check_cidrs_iff cidrs).0 e)), λ all. (check_cidrs_iff cidrs).1 all.1)
  ]

  abbrev pub RateLimitSound : RateLimitConfig → Type 0
  RateLimitSound c = IsPositive c.requests × IsPositive c.window × All Parses c.trusted_cidrs

  rate_limit_iff :
      (c : RateLimitConfig) → (validate_rate_limit parse_cidr c ≡ none) ↔ RateLimitSound c
  unfolding validate_rate_limit
  rate_limit_iff c =
      let (a, b) = below_one_iff c.requests in
      let (d, e) = not_positive_iff c.window in
      let (f, g) = check_cidrs_iff c.trusted_cidrs in ground arith

  pub record IsSound (c : AppConfig) : Type 0 where
    pub startup : IsPositive c.startup.timeout
    pub http : HttpSound c.http
    pub mysql : MysqlSound c.mysql
    pub redis : RedisSound c.redis
    pub shutdown : CloserSound c.shutdown
    pub health : IsPositive c.health.check_timeout
    pub auth : AuthSound c.auth
    pub email : EmailSound c.email
    pub rate_limit : RateLimitSound c.rate_limit
    pub rate_limit_public : RateLimitSound c.rate_limit_public
    pub tick : IsPositive c.outbox.tick
    pub budget : IsPositive c.outbox.budget
    pub batch : IsPositive c.outbox.batch
    pub workers : IsPositive c.outbox.workers
    pub max_attempts : IsPositive c.outbox.max_attempts
    pub window : pos_part c.outbox.budget + graces ≤ pos_part c.shutdown.phase

-- The settle window is not wrapped for a budget that leaves room for the graces.
window_iff :
    (budget phase : ℤ)
    → IsPositive budget
    → pos_part budget + graces < 2 ^ 63
    → (ltb_ℤ phase (settle_window budget) ≡ false) ↔ (pos_part budget + graces ≤ pos_part phase)
unfolding settle_window
window_iff (pos b) (pos p) positive small = ground arith
window_iff (pos b) (negsuc p) positive small = ground arith
window_iff (negsuc b) phase positive small = absurd (omega arith)

module _ {Range : Type 0} (parse_cidr : Text → Option Range) where
  -- The tests that the code makes in a row.
  record Passed (c : AppConfig) : Type 0 where
    startup : validate_starter c.startup ≡ none
    http : validate_http c.http ≡ none
    mysql : validate_mysql c.mysql ≡ none
    redis : validate_redis c.redis ≡ none
    shutdown : validate_closer c.shutdown ≡ none
    health : validate_health c.health ≡ none
    auth : validate_auth c.auth ≡ none
    email : validate_email c.email ≡ none
    rate_limit : validate_rate_limit parse_cidr c.rate_limit ≡ none
    rate_limit_public : validate_rate_limit parse_cidr c.rate_limit_public ≡ none
    outbox : Outbox.validate c.outbox ≡ none
    window : ltb_ℤ c.shutdown.phase (settle_window c.outbox.budget) ≡ false

  Passed-iff : (c : AppConfig) → (validate parse_cidr c ≡ none) ↔ Passed c
  unfolding validate
  Passed-iff c = ground arith

  -- If the budget of the outbox and its graces of six seconds add up to an int64 value, a
  -- configuration is accepted exactly when each of its sections is sound and the outbox settles
  -- within a phase of the shutdown. A section is sound only if its durations and numbers, which may
  -- be negative, are at or above their minima.
  pub accepted_iff :
      (c : AppConfig)
      → pos_part c.outbox.budget + graces < 2 ^ 63
      → (validate parse_cidr c ≡ none) ↔ IsSound parse_cidr c
  accepted_iff c small =
      let rates = rate_limit_iff parse_cidr c.rate_limit in
      let public = rate_limit_iff parse_cidr c.rate_limit_public in
      let outbox = validate-none_iff c.outbox in
      (
        (λ accepted.
            let p = (Passed-iff c).0 accepted in
            let (tick, budget, batch, workers, max_attempts) = outbox.0 p.outbox in
            record {
              startup = (starter_iff c.startup).0 p.startup;
              http = (http_iff c.http).0 p.http;
              mysql = (mysql_iff c.mysql).0 p.mysql;
              redis = (redis_iff c.redis).0 p.redis;
              shutdown = (closer_iff c.shutdown).0 p.shutdown;
              health = (health_iff c.health).0 p.health;
              auth = (auth_iff c.auth).0 p.auth;
              email = (email_iff c.email).0 p.email;
              rate_limit = rates.0 p.rate_limit;
              rate_limit_public = public.0 p.rate_limit_public;
              tick = tick;
              budget = budget;
              batch = batch;
              workers = workers;
              max_attempts = max_attempts;
              window = (window_iff c.outbox.budget c.shutdown.phase budget small).0 p.window;
            }),
        (λ sound. (Passed-iff c).1 (record {
          startup = (starter_iff c.startup).1 sound.startup;
          http = (http_iff c.http).1 sound.http;
          mysql = (mysql_iff c.mysql).1 sound.mysql;
          redis = (redis_iff c.redis).1 sound.redis;
          shutdown = (closer_iff c.shutdown).1 sound.shutdown;
          health = (health_iff c.health).1 sound.health;
          auth = (auth_iff c.auth).1 sound.auth;
          email = (email_iff c.email).1 sound.email;
          rate_limit = rates.1 sound.rate_limit;
          rate_limit_public = public.1 sound.rate_limit_public;
          outbox =
              outbox.1 (sound.tick, sound.budget, sound.batch, sound.workers, sound.max_attempts);
          window = (window_iff c.outbox.budget c.shutdown.phase sound.budget small).1 sound.window;
        })),
      )
