-- ===== src/App/Ending.antt =====
-- How the process of cmd/api/main.go ends.
use task_tracker.Base.{
  Bool, true, if◌then◌else◌, ℕ, ◌≡◌, ◌≤◌, ◌↔◌, refl, Option, none, some, List, [], ◌∷◌, ◌++◌, Text,
  arith, Option-cases, inl, inr, false, length, ◌+◌,
}
use task_tracker.Config
use task_tracker.Config.{AppConfig}
use task_tracker.Lifecycle.{
  Phase, Closer, drain, release, finished, tagged, shut_down, add_close, add_drain, Event, steps,
}
use task_tracker.Lifecycle.Starter.{join}
use task_tracker.Lifecycle.Finish.{ends, shut_down-finishes}
use task_tracker.App.{
  Startup, Interruption, interrupted, serve_failed, main, new_app, start_main, close_mysql,
  close_redis, close_server, drain_relay, drain_server,
}

-- What is opened is released, and what works is drained first.
abbrev pub planned : Startup → List (Phase × ℕ)
planned s = elim s.open_mysql [
  | some e ↦ []
  | none ↦ elim s.ping_mysql [
    | some e ↦ tagged release (close_mysql ∷ close_redis ∷ [])
    | none ↦
        tagged drain (drain_relay ∷ drain_server ∷ [])
        ++ tagged release (close_mysql ∷ close_redis ∷ close_server ∷ [])
  ]
]

abbrev Releases : List Event → Interruption → Startup → Type 0
Releases events first s =
    let ended = start_main events first s none in
    (ended.closer.stage ≡ finished) × (ended.closer.started ≡ planned s)

-- `shut_down-finishes` for a closer whose lists are known.
finishes :
    (events : List Event) (c : Closer)
    → 5 ≤ ends events
    → c.once ≡ false
    → c.started ≡ []
    → length c.drain + length c.close ≤ 5
    → ((steps events (shut_down c)).stage ≡ finished)
      × ((steps events (shut_down c)).started ≡ tagged drain c.drain ++ tagged release c.close)
finishes events c enough o e few = shut_down-finishes c events o e (omega arith)

releases :
    (opening pinging redis : Option Text) (first : Interruption) (events : List Event)
    → 5 ≤ ends events
    → Releases events first
        (record { open_mysql = opening; ping_mysql = pinging; ping_redis = redis })
unfolding new_app join add_close add_drain
releases (some e) pinging redis first events enough =
    finishes events _ enough refl refl (omega arith)
releases none (some e) (some r) first events enough =
    finishes events _ enough refl refl (omega arith)
releases none (some e) none first events enough = finishes events _ enough refl refl (omega arith)
releases none none (some r) interrupted events enough =
    finishes events _ enough refl refl (omega arith)
releases none none (some r) (serve_failed e) events enough =
    finishes events _ enough refl refl (omega arith)
releases none none none interrupted events enough = finishes events _ enough refl refl (omega arith)
releases none none none (serve_failed e) events enough =
    finishes events _ enough refl refl (omega arith)

module _ {Range : Type 0} (parse_cidr : Text → Option Range) where
  -- If the configuration is accepted and at least five results and deadlines come in, the shutdown
  -- of the process ends. If MySQL cannot be opened, it has started nothing; if the ping of MySQL
  -- fails, it has released MySQL and redis; and otherwise it has drained the relay and the server,
  -- and then released MySQL, redis and the server. It starts nothing else, whether redis answers or
  -- not, and whether a signal or a failure of the server came first.
  pub main-releases :
      (cfg : AppConfig) (s : Startup) (first : Interruption) (events : List Event)
      → Config.validate parse_cidr cfg ≡ none
      → 5 ≤ ends events
      → ((main parse_cidr (some cfg) s first events).closer.stage ≡ finished)
        × ((main parse_cidr (some cfg) s first events).closer.started ≡ planned s)
  unfolding main
  main-releases cfg s first events accepted enough =
      rw accepted (releases s.open_mysql s.ping_mysql s.ping_redis first events enough)

-- A signal, or an error of the server that is a cancellation.
abbrev pub IsQuiet : Interruption → Type 0
IsQuiet interrupted = Unit {0}
IsQuiet (serve_failed e) = e.is_canceled ≡ true

-- The startup succeeds, and what ends the serving is no failure.
abbrev pub Serves : Startup → Interruption → Type 0
Serves s first = (s.open_mysql ≡ none) × (s.ping_mysql ≡ none) × IsQuiet first

failed_code :
    (canceled : Bool) → (let code : ℕ = if canceled then 0 else 1 in code ≡ 0) ↔ (canceled ≡ true)
failed_code true = ((λ h. refl), λ h. refl)
failed_code false = ((λ h. absurd (omega (arith, h))), λ h. cc)

exits :
    (opening pinging redis : Option Text) (first : Interruption) (events : List Event)
    → let s : Startup = record { open_mysql = opening; ping_mysql = pinging; ping_redis = redis } in
      ((start_main events first s none).code ≡ 0) ↔ Serves s first
unfolding new_app join add_close add_drain
exits (some e) pinging redis first events = ((λ h. absurd (omega (arith, h))), λ h. cc)
exits none (some e) (some r) first events = ((λ h. absurd (omega (arith, h))), λ h. cc)
exits none (some e) none first events = ((λ h. absurd (omega (arith, h))), λ h. cc)
exits none none (some r) interrupted events = ((λ h. (refl, refl, tt)), λ h. refl)
exits none none none interrupted events = ((λ h. (refl, refl, tt)), λ h. refl)
exits none none (some r) (serve_failed e) events =
    let (forth, back) = failed_code e.is_canceled in
    ((λ h. (refl, refl, forth h)), λ (_, _, h). back h)
exits none none none (serve_failed e) events =
    let (forth, back) = failed_code e.is_canceled in
    ((λ h. (refl, refl, forth h)), λ (_, _, h). back h)

module _ {Range : Type 0} (parse_cidr : Text → Option Range) where
  -- What was read is a configuration that is accepted.
  abbrev pub IsAccepted : Option AppConfig → Type 0
  IsAccepted none = ⊥
  IsAccepted (some cfg) = Config.validate parse_cidr cfg ≡ none

  -- The exit code of the process is zero exactly when a configuration was read and is accepted,
  -- MySQL was opened and answered its ping, and what ended the serving was a signal or an error of
  -- the server in which errors.Is finds a cancellation; redis need not answer.
  pub main-0_iff :
      (read : Option AppConfig) (s : Startup) (first : Interruption) (events : List Event)
      → ((main parse_cidr read s first events).code ≡ 0) ↔ (IsAccepted read × Serves s first)
  unfolding main
  main-0_iff none s first events = ((λ h. absurd (omega (arith, h))), λ h. absurd (h.0))
  main-0_iff (some cfg) s first events = elim (Option-cases (Config.validate parse_cidr cfg)) [
    | inl accepted ↦
        let (forth, back) = exits s.open_mysql s.ping_mysql s.ping_redis first events in
        rw accepted ((λ h. (refl, forth h)), λ h. back h.1)
    | inr (e, refused) ↦ rw refused ((λ h. absurd (omega (arith, h))), λ h. cc (h.0))
  ]
