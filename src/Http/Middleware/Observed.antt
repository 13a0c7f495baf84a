-- ===== src/Http/Middleware/Observed.antt =====
-- `Metrics` and `Logging` of internal/transport/http/middleware/middleware.go, and `recoverer` and
-- `useObservability` of
-- internal/transport/http/router.go.
use task_tracker.Base.{
  ℕ, ◌+◌, Bool, true, false, Option, none, some, List, [], ◌∷◌, ◌++◌, Text, ascii, text_eq, leb,
  if◌then◌else◌,
}
use task_tracker.Tx.{Outcome, ok, err, panicked}
use task_tracker.Store.{World}
use task_tracker.Http.Kit.{bare, status}
use task_tracker.Http.Middleware.Headers.{Answer, plain}
pub mod Counted

-- `recoverer`: a panic becomes an answer with status 500, unless its value is `http.ErrAbortHandler`,
-- which goes on (`none`).
unfoldable pub recoverer : {B : Type 0} → Bool → Outcome (Answer B) (Answer B) → Option (Answer B)
recoverer aborts (ok a) = some a
recoverer aborts (err a) = some a
recoverer aborts panicked = if aborts then none else some (plain (bare 500))

-- The counters, without their labels.
pub record Meter : Type 0 where
  pub requests : ℕ
  pub request_errors : ℕ

abbrev pub skip_observability : List Text
skip_observability = ascii "/livez" ∷ ascii "/readyz" ∷ ascii "/metrics" ∷ []

unfoldable pub is_skipped : List Text → Text → Bool
is_skipped [] path = false
is_skipped (p ∷ ps) path = if text_eq p path then true else is_skipped ps path

-- The status that the wrapped writer saw; it starts at 200.
abbrev pub seen_status : {B : Type 0} → Option (Answer B) → ℕ
seen_status none = 200
seen_status (some a) = status a.reply

-- `Metrics`: the deferred part runs after a panic too.
unfoldable pub metrics : {B : Type 0} → Text → Option (Answer B) → Meter → Meter
unfolding is_skipped
metrics path a m = if is_skipped skip_observability path then m else record {
  requests = m.requests + 1;
  request_errors = if leb 500 (seen_status a) then m.request_errors + 1 else m.request_errors;
}

-- `Logging`: what it logs of a request, without its method, bytes and duration.
pub record LogEntry : Type 0 where
  pub path : Text
  pub status : ℕ

unfoldable pub logging : {B : Type 0} → Text → Option (Answer B) → List LogEntry → List LogEntry
unfolding is_skipped
logging path a entries =
    if is_skipped skip_observability path
    then entries
    else entries ++ record { path = path; status = seen_status a } ∷ []

-- What an operator sees.
pub record Seen : Type 0 where
  pub meter : Meter
  pub entries : List LogEntry

-- `useObservability`: `recoverer` is the innermost. No answer is left when a handler aborts.
unfoldable pub use_observability :
    {B : Type 0}
    → Text
    → Bool
    → (World → Outcome (Answer B) (Answer B) × World)
    → World
    → Seen
    → Option (Answer B) × World × Seen
unfolding recoverer metrics logging
use_observability path aborts next w seen =
    let (r, w') = next w in
    let a = recoverer aborts r in
    (a, w', record { meter = metrics path a seen.meter; entries = logging path a seen.entries })
