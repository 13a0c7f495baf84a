-- ===== src/Health.antt =====
-- internal/infrastructure/health/health.go, and the handlers of internal/transport/http/health.go. What a
-- check returns when it is called is its result: `none` is nil.
use task_tracker.Base.{
  ℕ, ◌≡◌, ◌↔◌, refl, Option, none, some, List, [], ◌∷◌, ◌++◌, Text, ascii, All, arith, Option-cases,
  inl, inr,
}
use task_tracker.Http.Kit.{Reply, error, status}

pub data State : Type 0 where
  starting ready shutdown : State

pub record Health : Type 0 where
  pub checks : List ℕ
  pub state : State

abbrev pub new_health : Health
new_health = record { checks = []; state = starting }

-- `AddCheck`, `SetReady` and `SetShuttingDown`
abbrev pub add_check : List ℕ → Health → Health
add_check cs h = record h { checks = h.checks ++ cs }

abbrev pub set_ready : Health → Health
set_ready h = record h { state = ready }

abbrev pub set_shutting_down : Health → Health
set_shutting_down h = record h { state = shutdown }

pub data HealthError : Type 0 where
  is_starting is_shutting_down : HealthError
  check_failed : Text → HealthError

abbrev or_failed : Option Text → Option HealthError → Option HealthError
or_failed none next = next
or_failed (some e) next = some (check_failed e)

-- The loop over the checks: the first that fails.
unfoldable pub run_checks : (ℕ → Option Text) → List ℕ → Option HealthError
run_checks call [] = none
run_checks call (c ∷ cs) = or_failed (call c) (run_checks call cs)

abbrev pub readiness : (ℕ → Option Text) → State → List ℕ → Option HealthError
readiness call starting checks = some is_starting
readiness call shutdown checks = some is_shutting_down
readiness call ready checks = run_checks call checks

-- `CheckReadiness`
unfoldable pub check_readiness : (ℕ → Option Text) → Health → Option HealthError
unfolding run_checks
check_readiness call h = readiness call h.state h.checks

-- `readyzHandler` and `livezHandler`; the body of a success is the text "ok".
abbrev pub readyz : Option HealthError → Reply Text
readyz none = Reply.json 200 (ascii "ok")
readyz (some is_starting) = error 503 (ascii "starting")
readyz (some is_shutting_down) = error 503 (ascii "shutting down")
readyz (some (check_failed _)) = error 503 (ascii "not ready")

unfoldable pub readyz_handler : (ℕ → Option Text) → Health → Reply Text
unfolding check_readiness
readyz_handler call h = readyz (check_readiness call h)

abbrev pub livez_handler : Reply Text
livez_handler = Reply.json 200 (ascii "ok")

run_checks_iff :
    (call : ℕ → Option Text) (cs : List ℕ)
    → (run_checks call cs ≡ none) ↔ All (λ c. call c ≡ none) cs
unfolding run_checks
run_checks_iff call [] = ((λ e. tt), λ _. refl)
run_checks_iff call (c ∷ cs) = elim (Option-cases (call c)) [
  | inl passes ↦
      rw passes
        ((λ e. (refl, (run_checks_iff call cs).0 e)), λ all. (run_checks_iff call cs).1 all.1)
  | inr (e, fails) ↦ rw fails ((λ f. cc), λ all. cc (all.0))
]

readyz-200 : (o : Option HealthError) → (status (readyz o) ≡ 200) ↔ (o ≡ none)
readyz-200 none = ((λ e. refl), λ e. refl)
readyz-200 (some is_starting) = ((λ e. absurd (omega (arith, e))), λ e. cc)
readyz-200 (some is_shutting_down) = ((λ e. absurd (omega (arith, e))), λ e. cc)
readyz-200 (some (check_failed t)) = ((λ e. absurd (omega (arith, e))), λ e. cc)

check_readiness_iff :
    (call : ℕ → Option Text) (h : Health)
    → (check_readiness call h ≡ none) ↔ ((h.state ≡ ready) × All (λ c. call c ≡ none) h.checks)
unfolding check_readiness
check_readiness_iff call h = of_state h.state
  where
    of_state :
        (st : State)
        → (readiness call st h.checks ≡ none) ↔ ((st ≡ ready) × All (λ c. call c ≡ none) h.checks)
    of_state starting = ((λ e. cc), λ e. cc (e.0))
    of_state shutdown = ((λ e. cc), λ e. cc (e.0))
    of_state ready = (
      (λ e. (refl, (run_checks_iff call h.checks).0 e)),
      λ e. (run_checks_iff call h.checks).1 e.1,
    )

-- The readiness probe is answered with 200 exactly when the process is ready, neither starting nor
-- shutting down, and every check passes.
pub readyz_handler-200_iff :
    (call : ℕ → Option Text) (h : Health)
    → (status (readyz_handler call h) ≡ 200)
      ↔ ((h.state ≡ ready) × All (λ c. call c ≡ none) h.checks)
unfolding readyz_handler
readyz_handler-200_iff call h =
    let (a, b) = readyz-200 (check_readiness call h) in
    let (d, e) = check_readiness_iff call h in ((λ ok. d (a ok)), λ good. b (e good))
