-- ===== src/Cli.antt =====
-- cmd/cli/main.go: the command `grant-admin`. What it prints is left out.
use task_tracker.Base.{ℕ, Option, none, some, List, [], ◌∷◌, Text, ascii, text_eq, if◌then◌else◌}
use task_tracker.Tx.{Outcome, ok, err, panicked}
use task_tracker.Domain.{Error}
use task_tracker.Store.{Env, World}
use task_tracker.Config.{AppConfig, ConfigIssue}
use task_tracker.Config
use task_tracker.Service.Auth
use task_tracker.Service.Auth.{Credentials}
use task_tracker.Cli.Flags.{Parse, exits, parsed, parse}
pub mod Flags
pub mod Grants

-- What `buildAuthService` reads and opens: no configuration, or the error of the client of MySQL.
pub record Setup : Type 0 where
  pub read : Option AppConfig
  pub open_mysql : Option Text

abbrev pub code_of : Outcome Error (Unit {0}) → ℕ
code_of (ok _) = 0
code_of (err e) = 1
code_of panicked = 2

-- The service is there, or there is an error.
abbrev pub built : Option ConfigIssue → Option Text → Option Text
built (some e) opening = some (ascii "config validate")
built none opening = opening

abbrev granted : Env → Credentials → Text → Option Text → World → ℕ × World
granted env cred email (some e) w = (1, w)
granted env cred email none w = let (r, w') = Auth.grant_admin env cred email w in (code_of r, w')

module _ {Range : Type 0} (parse_cidr : Text → Option Range) where
  -- `buildAuthService`
  abbrev pub build_auth_service : Option AppConfig → Option Text → Option Text
  build_auth_service none opening = some (ascii "config")
  build_auth_service (some cfg) opening = built (Config.validate parse_cidr cfg) opening

  module _ (env : Env) (cred : Credentials) where
    abbrev pub with_flags : Setup → Parse → World → ℕ × World
    with_flags s (exits code) w = (code, w)
    with_flags s (parsed []) w = (1, w)
    with_flags s (parsed (b ∷ email)) w =
        granted env cred (b ∷ email) (build_auth_service s.read s.open_mysql) w

    -- `grantAdmin`
    unfoldable pub grant_admin_command : Setup → List Text → World → ℕ × World
    unfolding parse
    grant_admin_command s args w = with_flags s (parse [] args) w

    -- `main`, on the arguments after the name of the program: its exit code.
    unfoldable pub cli : Setup → List Text → World → ℕ × World
    unfolding grant_admin_command
    cli s [] w = (2, w)
    cli s (command ∷ args) w =
        if text_eq command (ascii "grant-admin") then grant_admin_command s args w else (2, w)
