-- ===== src/Http/Router.antt =====
-- `NewRouter` of internal/transport/http/router.go: the endpoints under /api/v1, their handlers, and the
-- middleware of their groups. Which endpoint a path names is the router chi's, a third-party package.
use task_tracker.Base.{ℕ, Bool, Option, none, some, List, Text}
use task_tracker.Tx.{Outcome}
use task_tracker.Store.{Env, Transactions, World}
use task_tracker.Service.Auth.{Credentials}
use task_tracker.RateLimit.{Allowance}
use task_tracker.Http.Kit.{Request, Decoded, Handler}
use task_tracker.Http.Rules.{Rules}
use task_tracker.Http.Auth
use task_tracker.Http.Teams
use task_tracker.Http.Tasks
use task_tracker.Http.Comments
use task_tracker.Http.Analytics
use task_tracker.Http.Middleware.Headers.{Answer}
use task_tracker.Http.Middleware.Observed.{Seen, use_observability}
use task_tracker.Http.Middleware.{Net, Served, serving, auth, rate_limit, rate_limit_by_ip}
pub mod Access
pub mod Session
pub mod Recorded

pub data Endpoint : Type 0 where
  register login me : Endpoint
  team_create team_list team_invite : Endpoint
  task_create task_list task_update task_history : Endpoint
  comment_create comment_list comment_update comment_delete : Endpoint
  team_stats top_creators orphan_assignees : Endpoint

-- The type that a handler decodes the body into.
abbrev pub Body : Endpoint → Type 0
Body register = Auth.RegisterRequest
Body login = Auth.LoginRequest
Body team_create = Teams.CreateTeamRequest
Body team_invite = Teams.InviteRequest
Body task_create = Tasks.CreateTaskRequest
Body task_update = Tasks.UpdateTaskRequest
Body comment_create = Comments.CreateCommentRequest
Body comment_update = Comments.UpdateCommentRequest
Body _ = Unit {0}

-- The type of what it answers.
abbrev pub Value : Endpoint → Type 0
Value register = Auth.UserResponse
Value login = Auth.LoginResponse
Value me = Auth.UserResponse
Value team_create = Teams.TeamResponse
Value team_list = List Teams.TeamResponse
Value task_create = Tasks.TaskResponse
Value task_list = Tasks.TaskListResponse
Value task_update = Tasks.TaskResponse
Value task_history = List Tasks.ChangeResponse
Value comment_create = Comments.CommentResponse
Value comment_list = Comments.CommentListResponse
Value comment_update = Comments.CommentResponse
Value team_stats = Analytics.ListResponse Analytics.TeamStatsResponse
Value top_creators = Analytics.ListResponse Analytics.TopCreatorResponse
Value orphan_assignees = Analytics.ListResponse Analytics.OrphanAssigneeResponse
Value _ = Unit {0}

-- The arguments of `NewRouter`, and what the services are built from.
pub record Site : Type 1 where
  pub env : Env
  pub tx : Transactions
  pub cred : Credentials
  pub rules : Rules
  pub week_ago : ℕ → ℕ
  pub month_ago : ℕ → ℕ
  pub parse : Text → Option ℕ
  pub user_limiter : Text → Allowance
  pub ip_limiter : Text → Allowance
  pub net : Net
  pub trusted : List net.Range

-- A request as it arrives. The body is what the decoder makes of it under a limit on its bytes.
pub record HttpRequest (A : Type 0) : Type 0 where
  pub authorization : Text
  pub remote_addr : Text
  pub url_id : Text
  pub query : Text → Text
  pub body : ℕ → Decoded A
  pub ended : Bool

abbrev pub max_request_body : ℕ
max_request_body = 65536

-- What a handler reads, behind `LimitBody` and with the principal of `Auth`.
abbrev pub handler_request : {A : Type 0} → Option ℕ → HttpRequest A → Request A
handler_request principal r = record {
  principal = principal;
  url_id = r.url_id;
  query = r.query;
  body = r.body max_request_body;
  ended = r.ended;
}

-- The two groups of `NewRouter`.
pub data Group : Type 0 where
  anonymous authenticated : Group

abbrev pub group_of : Endpoint → Group
group_of register = anonymous
group_of login = anonymous
group_of _ = authenticated

module _ (s : Site) where
  -- The handler that `Routes` of each package mounts.
  unfoldable pub handler : (e : Endpoint) → Request (Body e) → Handler (Value e)
  handler register = Auth.register_handler s.env s.cred s.rules
  handler login = Auth.login_handler s.env s.cred s.rules
  handler me = Auth.me s.env s.cred
  handler team_create = Teams.create_handler s.env s.tx s.rules
  handler team_list = Teams.list_handler s.env s.tx
  handler team_invite = Teams.invite_handler s.env s.tx s.rules
  handler task_create = Tasks.create_handler s.env s.tx s.rules
  handler task_list = Tasks.list_handler s.env
  handler task_update = Tasks.update_handler s.env s.tx s.rules
  handler task_history = Tasks.history_handler s.env
  handler comment_create = Comments.create_handler s.env s.tx s.rules
  handler comment_list = Comments.list_handler s.env
  handler comment_update = Comments.update_handler s.env s.tx s.rules
  handler comment_delete = Comments.delete_handler s.env s.tx
  handler team_stats = Analytics.team_stats_handler s.env s.week_ago s.month_ago
  handler top_creators = Analytics.top_creators_handler s.env s.week_ago s.month_ago
  handler orphan_assignees = Analytics.orphan_assignees_handler s.env

  -- The middleware of a group, around the handler.
  abbrev pub behind :
      (g : Group) {A B : Type 0} → (Request A → Handler B) → HttpRequest A → Served B
  behind anonymous h r =
      rate_limit_by_ip s.net s.ip_limiter s.trusted r.remote_addr
        (serving (h (handler_request none r)))
  behind authenticated h r = auth s.parse r.authorization λ user_id.
      rate_limit s.user_limiter (some user_id) (serving (h (handler_request (some user_id) r)))

  unfoldable pub api : (e : Endpoint) → HttpRequest (Body e) → Served (Value e)
  unfolding handler
  api e = behind (group_of e) (handler e)

  -- An endpoint behind `useObservability`; `aborts` tells the panic of `http.ErrAbortHandler` from others.
  unfoldable pub route :
      (e : Endpoint)
      → (path : Text) → (aborts : Bool) → HttpRequest (Body e)
      → World
      → Seen
      → Option (Answer (Value e)) × World × Seen
  unfolding api
  route e path aborts r = use_observability path aborts (api e r)
