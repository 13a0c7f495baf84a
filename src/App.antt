-- ===== src/App.antt =====
-- internal/app.go, and `main` of cmd/api/main.go. A function that is registered is named by a number.
use task_tracker.Base.{
  ℕ, Bool, true, false, Option, none, some, List, [], ◌∷◌, Text, ◌==◌, if◌then◌else◌,
}
use task_tracker.Tx.{Outcome, ok, err, panicked, Action, ◌>>=◌, ◌>>◌, pure, raise}
use task_tracker.Config.{AppConfig, ConfigIssue}
use task_tracker.Config
use task_tracker.Lifecycle.{Closer, new_closer, add_close, add_drain, shut_down, Event, steps}
use task_tracker.Lifecycle.Starter.{add_ping, start}
use task_tracker.Health.{Health, new_health, add_check, set_ready, set_shutting_down}
pub mod Ending

-- What is registered to be released, and what to be drained.
abbrev pub close_mysql : ℕ
close_mysql = 0

abbrev pub close_redis : ℕ
close_redis = 1

abbrev pub close_server : ℕ
close_server = 2

abbrev pub drain_relay : ℕ
drain_relay = 3

abbrev pub drain_server : ℕ
drain_server = 4

-- The two pings, and the check of readiness.
abbrev pub mysql_ping : ℕ
mysql_ping = 0

abbrev pub redis_ping : ℕ
redis_ping = 1

abbrev pub mysql_check : ℕ
mysql_check = 0

-- What the clients of MySQL and redis return at startup: `none` is nil.
pub record Startup : Type 0 where
  pub open_mysql : Option Text
  pub ping_mysql : Option Text
  pub ping_redis : Option Text

-- A redis that does not answer is logged.
abbrev degrade : Option Text → Option Text
degrade none = none
degrade (some warning) = none

abbrev ping : Startup → ℕ → Option Text
ping s n = if n == mysql_ping then s.ping_mysql else degrade s.ping_redis

pub data StartupError : Type 0 where
  mysql : Text → StartupError
  startup_pings : List Text → StartupError

-- The closer that `main` and `NewApp` share, and whether the context of the workers is cancelled.
pub record Process : Type 0 where
  pub closer : Closer
  pub stopped : Bool

pub record App : Type 0 where
  pub health : Health

abbrev Startable : Type 0 → Type 0
Startable = Action Process StartupError

abbrev register : (Closer → Closer) → Startable (Unit {0})
register f p = (ok tt, record p { closer = f p.closer })

abbrev opened : Option Text → Startable (Unit {0})
opened none = pure tt
opened (some e) = raise (mysql e)

abbrev answered : List Text → Startable (Unit {0})
answered [] = pure tt
answered (e ∷ es) = raise (startup_pings (e ∷ es))

-- The deferred call of `NewApp`.
abbrev stop_on_error : {A : Type 0} → Startable A → Startable A
stop_on_error m p =
    let (r, p') = m p in
    elim r [
      | ok a ↦ (ok a, p')
      | err e ↦ (err e, record p' { stopped = true })
      | panicked ↦ (panicked, p')
    ]

-- `NewApp`
unfoldable pub new_app : Startup → Startable App
new_app s = stop_on_error (do
  opened s.open_mysql
  register (add_close (close_mysql ∷ []))
  register (add_close (close_redis ∷ []))
  answered (
      start (ping s)
        (add_ping (redis_ping ∷ []) (add_ping (mysql_ping ∷ []) (record { pings = [] }))))
  register (add_drain (drain_relay ∷ []))
  register (add_drain (drain_server ∷ []))
  register (add_close (close_server ∷ []))
  pure (record { health = add_check (mysql_check ∷ []) new_health }))

-- An error of the server, and whether `errors.Is` finds `context.Canceled` in it, which the wrapping of
-- `App.Run` keeps.
pub record ServeError : Type 0 where
  pub message : Text
  pub is_canceled : Bool

-- What `App.Run` receives first: the context is done, or the server cannot serve.
pub data Interruption : Type 0 where
  interrupted : Interruption
  serve_failed : ServeError → Interruption

abbrev run_app : Interruption → App → Option ServeError × App
run_app interrupted a = (none, record { health = set_ready a.health })
run_app (serve_failed e) a = (some e, record { health = set_ready a.health })

-- The process once `ShutDown` has been called and `events` have arrived: its exit code.
pub record Exit : Type 0 where
  pub code : ℕ
  pub closer : Closer
  pub health : Option Health

-- `err != nil && !errors.Is(err, context.Canceled)`
abbrev exit_code : Option ServeError → ℕ
exit_code none = 0
exit_code (some e) = if e.is_canceled then 0 else 1

-- `App.ShutDown`, and the end of `main`.
abbrev ended : List Event → Process → Option ServeError × App → Exit
ended events p (e, a) = record {
  code = exit_code e;
  closer = steps events (shut_down p.closer);
  health = some (set_shutting_down a.health);
}

abbrev run_main : List Event → Interruption → Outcome StartupError App × Process → Exit
run_main events first (ok a, p) = ended events p (run_app first a)
run_main events first (err e, p) = record {
  code = 1;
  closer = steps events (shut_down p.closer);
  health = none;
}
run_main events first (panicked, p) = record { code = 2; closer = p.closer; health = none }

abbrev refused : Exit
refused = record { code = 1; closer = new_closer; health = none }

abbrev start_main : List Event → Interruption → Startup → Option ConfigIssue → Exit
start_main events first s none =
    run_main events first (new_app s (record { closer = new_closer; stopped = false }))
start_main events first s (some e) = refused

-- `main`
module _ {Range : Type 0} (parse_cidr : Text → Option Range) where
  unfoldable pub main : Option AppConfig → Startup → Interruption → List Event → Exit
  unfolding new_app
  main none s first events = refused
  main (some cfg) s first events = start_main events first s (Config.validate parse_cidr cfg)
