-- ===== src/Http/Middleware/Observed/Counted.antt =====
-- What an operator sees of a request that internal/transport/http/router.go serves.
use task_tracker.Base.{
  ◌+◌, ◌≤◌, ◌<◌, ◌≡◌, refl, false, some, [], ◌∷◌, ◌++◌, Text, leb, Bool-cases, inl, inr, ◌⊎◌, arith,
}
use task_tracker.Tx.{Outcome, ok, err, panicked}
use task_tracker.Store.{World}
use task_tracker.Http.Kit.{status}
use task_tracker.Http.Middleware.Headers.{Answer}
use task_tracker.Http.Middleware.Observed.{
  recoverer, skip_observability, is_skipped, metrics, logging, Seen, use_observability,
}

-- The answer, and what is recorded of it.
abbrev pub Recorded : {B : Type 0} → Text → Seen → Answer B → Seen → Type 0
Recorded path before a after =
    (after.meter.requests ≡ before.meter.requests + 1)
    × (((500 ≤ status a.reply) × (after.meter.request_errors ≡ before.meter.request_errors + 1))
        ⊎ ((status a.reply < 500) × (after.meter.request_errors ≡ before.meter.request_errors)))
    × (after.entries ≡ before.entries ++ record { path = path; status = status a.reply } ∷ [])

recorded :
    {B : Type 0} (path : Text) (a : Answer B) (seen : Seen)
    → is_skipped skip_observability path ≡ false
    → Recorded path seen a (record {
      meter = metrics path (some a) seen.meter;
      entries = logging path (some a) seen.entries;
    })
unfolding metrics logging
recorded path a seen watched = elim (Bool-cases (leb 500 (status a.reply))) [
  | inl failed ↦ rw (watched, failed) (refl, inl (ground arith, refl), refl)
  | inr served ↦ rw (watched, served) (refl, inr (ground arith, refl), refl)
]

module _ {B : Type 0} (path : Text) (next : World → Outcome (Answer B) (Answer B) × World) where
  answered :
      (r : Outcome (Answer B) (Answer B)) (seen : Seen)
      → is_skipped skip_observability path ≡ false
      → (a : Answer B) × (recoverer false r ≡ some a)
        × (r ≡ panicked → status a.reply ≡ 500)
        × Recorded path seen a (record {
          meter = metrics path (recoverer false r) seen.meter;
          entries = logging path (recoverer false r) seen.entries;
        })
  unfolding recoverer
  answered (ok a) seen watched = (a, refl, (λ e. cc), recorded path a seen watched)
  answered (err a) seen watched = (a, refl, (λ e. cc), recorded path a seen watched)
  answered panicked seen watched = (_, refl, (λ e. refl), recorded path _ seen watched)

  pub use_observability-Recorded :
      (w : World) (seen : Seen)
      → is_skipped skip_observability path ≡ false
      → let (answer, w', after) = use_observability path false next w seen in
        (w' ≡ (next w).1)
        × ((a : Answer B) × (answer ≡ some a)
            × ((next w).0 ≡ panicked → status a.reply ≡ 500)
            × Recorded path seen a after)
  unfolding use_observability
  use_observability-Recorded w seen watched = (refl, answered (next w).0 seen watched)
