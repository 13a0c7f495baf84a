-- ===== src/Http/Router/Recorded.antt =====
-- What internal/transport/http/router.go answers and records of a request to an endpoint.
use task_tracker.Base.{◌≡◌, false, some, Text}
use task_tracker.Tx.{panicked}
use task_tracker.Store.{World}
use task_tracker.Http.Kit.{status}
use task_tracker.Http.Middleware.Headers.{Answer}
use task_tracker.Http.Middleware.Observed.{skip_observability, is_skipped, Seen}
use task_tracker.Http.Middleware.Observed.Counted.{Recorded, use_observability-Recorded}
use task_tracker.Http.Router.{Site, Endpoint, Body, Value, HttpRequest, api, route}

module _ (s : Site) where
  -- If a panic of a handler is never that of http.ErrAbortHandler and the path is one that is
  -- observed, every request to an endpoint gets an answer, that of status 500 if its handler
  -- panics, and changes the world as its handler does. The counter of requests grows by one, the
  -- counter of errors grows by one exactly if the status of the answer is at least 500, and one
  -- entry with that status is logged.
  pub route-Recorded :
      (e : Endpoint) (path : Text) (r : HttpRequest (Body e)) (w : World) (seen : Seen)
      → is_skipped skip_observability path ≡ false
      → ((route s e path false r w seen).1 ≡ (api s e r w).1)
        × ((a : Answer (Value e)) × ((route s e path false r w seen).0 ≡ some a)
            × ((api s e r w).0 ≡ panicked → status a.reply ≡ 500)
            × Recorded path seen a (route s e path false r w seen).2)
  unfolding route
  route-Recorded e path r w seen watched =
      use_observability-Recorded path (api s e r) w seen watched
