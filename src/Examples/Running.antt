-- ===== src/Examples/Running.antt =====
-- The theorems on the configuration, the shutdown and the readiness of a process.
use task_tracker.Base.{
  ℕ, ◌*◌, ◌≡◌, ◌↔◌, refl, none, some, Option, [], ◌∷◌, ◌++◌, Text, ascii, pos, negsuc, arith,
}
use task_tracker.Outbox.{second}
use task_tracker.Outbox
use task_tracker.Config.{AppConfig, settle_window, validate}
use task_tracker.Config.Sections.{
  RateLimitConfig, validate_starter, validate_http, validate_mysql, validate_redis, validate_closer,
  validate_health, validate_auth, validate_email, validate_rate_limit,
}
use task_tracker.Config.Whole.{IsSound, accepted_iff}
use task_tracker.Lifecycle.{
  Closer, new_closer, drain, release, finished, tagged, shut_down, returns, expires, adds_close,
  shuts_down, steps,
}
use task_tracker.Lifecycle.Finish.{shut_down-finishes}
use task_tracker.Lifecycle.Wait.{shut_down-waits}
use task_tracker.App.{Startup, interrupted, main}
use task_tracker.App.Ending.{Serves, IsAccepted, planned, main-releases, main-0_iff}
use task_tracker.Cli.{Setup, cli}
use task_tracker.Cli.Grants.{asked, GrantEnds, cli-GrantEnds}
use task_tracker.Examples.World.{env, world}
use task_tracker.Examples.Site.{cred}

abbrev limits : RateLimitConfig
limits = record { trusted_cidrs = []; requests = pos 100; window = pos (60 * second) }

abbrev config : AppConfig
config = record {
  auth = record {
    identity = record {
      secret = ascii "0123456789abcdef0123456789abcdef";
      ttl = pos (86400 * second);
    };
    password_cost = pos 10;
  };
  mysql = record {
    dsn = ascii "dsn";
    conn_max_lifetime = pos (300 * second);
    max_open_conns = pos 25;
    max_idle_conns = pos 25;
  };
  rate_limit_public = limits;
  rate_limit = limits;
  http = record {
    addr = ascii ":8080";
    read_timeout = pos (10 * second);
    write_timeout = pos (15 * second);
    idle_timeout = pos (60 * second);
  };
  redis = record {
    addr = ascii "localhost:6379";
    password = [];
    db = pos 0;
    tasks_ttl = pos (300 * second);
    dial_timeout = pos (1 * second);
    read_timeout = pos (1 * second);
    write_timeout = pos (1 * second);
    max_retries = negsuc 0;
    dialer_retries = pos 1;
  };
  outbox = record {
    tick = pos (1 * second);
    budget = pos (5 * second);
    dedup_ttl = pos (3600 * second);
    batch = pos 100;
    workers = pos 4;
    max_attempts = pos 8;
  };
  email = record { max_failures = 3; open_for = pos (30 * second); timeout = pos (3 * second) };
  shutdown = record { total = pos (30 * second); phase = pos (15 * second) };
  startup = record { timeout = pos (15 * second) };
  health = record { check_timeout = pos (2 * second) };
}

abbrev parse_cidr : Text → Option ℕ
parse_cidr t = none

accepted_iff_example : (validate parse_cidr config ≡ none) ↔ IsSound parse_cidr config
accepted_iff_example = accepted_iff parse_cidr config (omega arith)

abbrev registered : Closer
registered = record new_closer { close = 1 ∷ 2 ∷ []; drain = 3 ∷ 4 ∷ [] }

shut_down-finishes_example :
    ((steps
        (returns ∷ shuts_down ∷ expires ∷ returns ∷ adds_close (5 ∷ []) ∷ returns ∷ [])
        (shut_down registered)).stage
      ≡ finished)
    × ((steps
          (returns ∷ shuts_down ∷ expires ∷ returns ∷ adds_close (5 ∷ []) ∷ returns ∷ [])
          (shut_down registered)).started
        ≡ tagged drain (3 ∷ 4 ∷ []) ++ tagged release (1 ∷ 2 ∷ []))
shut_down-finishes_example =
    shut_down-finishes registered
      (returns ∷ shuts_down ∷ expires ∷ returns ∷ adds_close (5 ∷ []) ∷ returns ∷ []) refl refl
      (omega arith)

shut_down-waits_example :
    (steps (returns ∷ shuts_down ∷ []) (shut_down registered)).started ≡ tagged drain (3 ∷ 4 ∷ [])
shut_down-waits_example =
    shut_down-waits registered (returns ∷ shuts_down ∷ []) refl refl tt (omega arith)

-- A startup at which redis does not answer.
abbrev startup : Startup
startup = record { open_mysql = none; ping_mysql = none; ping_redis = some (ascii "refused") }

config_accepted : validate parse_cidr config ≡ none
unfolding validate validate_starter validate_http validate_mysql validate_redis validate_closer
    validate_health validate_auth validate_email validate_rate_limit Outbox.validate settle_window
config_accepted = refl

main-releases_example :
    ((main parse_cidr
        (some config)
        startup
        interrupted
        (returns ∷ returns ∷ returns ∷ expires ∷ returns ∷ [])).closer.stage
      ≡ finished)
    × ((main parse_cidr
          (some config)
          startup
          interrupted
          (returns ∷ returns ∷ returns ∷ expires ∷ returns ∷ [])).closer.started
        ≡ planned startup)
main-releases_example =
    main-releases parse_cidr config startup interrupted
      (returns ∷ returns ∷ returns ∷ expires ∷ returns ∷ []) config_accepted (omega arith)

main-0_iff_example :
    ((main parse_cidr (some config) startup interrupted []).code ≡ 0)
    ↔ (IsAccepted parse_cidr (some config) × Serves startup interrupted)
main-0_iff_example = main-0_iff parse_cidr (some config) startup interrupted []

abbrev setup : Setup
setup = record { read = some config; open_mysql = none }

cli-GrantEnds_example :
    GrantEnds parse_cidr env cred setup
      (asked (ascii "grant-admin" ∷ ascii "--email" ∷ ascii "a" ∷ []))
      world
      (cli parse_cidr env cred setup (ascii "grant-admin" ∷ ascii "--email" ∷ ascii "a" ∷ []) world)
cli-GrantEnds_example =
    cli-GrantEnds parse_cidr env cred setup (ascii "grant-admin" ∷ ascii "--email" ∷ ascii "a" ∷ [])
      world
