-- ===== src/Examples/Access.antt =====
-- The theorems on the middleware around the API at a request with a token.
use task_tracker.Base.{
  ℕ, ◌≡◌, refl, true, false, some, [], ◌∷◌, ◌++◌, Text, ascii, text_eq, ◌⊎◌, arith, decimal, ◌^◌,
  ◌<◌,
}
use task_tracker.Domain.{User}
use task_tracker.Persistence.Users.{find_email, by_email}
use task_tracker.Identity
use task_tracker.Http.Kit.{status, malformed}
use task_tracker.Http.Middleware.{serving}
use task_tracker.Http.Router.{task_list, HttpRequest, handler_request, handler, api}
use task_tracker.Http.Router.{route, Value}
use task_tracker.Tx.{panicked}
use task_tracker.Http.Router.Recorded.{route-Recorded}
use task_tracker.Http.Middleware.Headers.{Answer}
use task_tracker.Http.Middleware.Observed.{Seen, skip_observability, is_skipped}
use task_tracker.Http.Middleware.Observed.Counted.{Recorded}
use task_tracker.Http.Router.Access.{IsAdmitted, TurnedAway, api-IsAdmitted}
use task_tracker.Http.Router.Session.{Limited, login-session}
use task_tracker.Examples.World.{env, tables, world}
use task_tracker.Examples.Site.{jwt, jwt-Documented, provider, site}
use task_tracker.Examples.Http.{query}

abbrev token : Text
token = 0 ∷ 100 ∷ 12 ∷ (ascii "task-tracker" ++ (16 ∷ (ascii "task-tracker-api" ++ ascii "1")))

abbrev with_token : HttpRequest (Unit {0})
with_token = record {
  authorization = ascii "Bearer " ++ token;
  remote_addr = ascii "10.0.0.1:80";
  url_id = [];
  query = query;
  body = λ limit. malformed;
  ended = false;
}

api-IsAdmitted_example :
    ((user_id : ℕ) × IsAdmitted site with_token.authorization user_id
      × (api site task_list with_token world
          ≡ serving (handler site task_list (handler_request (some user_id) with_token)) world))
    ⊎ TurnedAway world (api site task_list with_token world)
api-IsAdmitted_example = api-IsAdmitted site task_list with_token world refl

abbrev unseen : Seen
unseen = record { meter = record { requests = 0; request_errors = 0 }; entries = [] }

watched : is_skipped skip_observability (ascii "/api/v1/tasks") ≡ false
unfolding is_skipped text_eq
watched = refl

route-Recorded_example :
    ((route site task_list (ascii "/api/v1/tasks") false with_token world unseen).1
      ≡ (api site task_list with_token world).1)
    × ((a : Answer (Value task_list)) × ((route site task_list
            (ascii "/api/v1/tasks")
            false
            with_token
            world
            unseen).0
          ≡ some a)
        × ((api site task_list with_token world).0 ≡ panicked → status a.reply ≡ 500)
        × Recorded
            (ascii "/api/v1/tasks")
            unseen
            a
            (route site task_list (ascii "/api/v1/tasks") false with_token world unseen).2)
route-Recorded_example =
    route-Recorded site task_list (ascii "/api/v1/tasks") with_token world unseen watched

small_ids : (u : User) → find_email env (ascii "a") tables ≡ some u → u.id < 2 ^ 63
unfolding text_eq
small_ids u found = ground arith

login-session_example :
    (u : User) × (find_email env (ascii "a") tables ≡ some u)
    × (text_eq u.password_hash [] ≡ true)
    × ((api site task_list with_token world
          ≡ serving (handler site task_list (handler_request (some u.id) with_token)) world)
        ⊎ Limited world (api site task_list with_token world))
unfolding by_email text_eq Identity.issue decimal
login-session_example =
    login-session site jwt provider 0 10 (ascii "a") [] token world task_list with_token world
      jwt-Documented refl refl small_ids refl (λ e. cc) (omega arith) refl refl
