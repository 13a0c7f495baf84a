-- ===== src/Http/Tasks/Filter/Bounds.antt =====
-- What `parseListFilter` of internal/transport/http/tasks/tasks.go makes of the query.
use task_tracker.Base.{
  ℕ, ◌≤◌, ◌<◌, ◌^◌, ◌≡◌, ◌≢◌, Option, some, [], ◌∷◌, Text, ascii, text_eq, decimal, arith,
  if◌then◌else◌,
}
use task_tracker.Domain.{TaskFilter, TaskStatus, unset}
use task_tracker.Service.Cache.Keys.{IsRequest}
use task_tracker.Http.Query.{
  parsed, >>=-eq-parsed, positive, positive_lem, parse_limit, parse_limit_bounds, parse_cursor,
  parse_cursor-decimal, max_limit,
}
use task_tracker.Http.Tasks.Filter.{parse_status, parse_assignee, parse_list_filter}

parse_status-set :
    (s : Text) (st : Option TaskStatus) → parse_status s ≡ parsed st → st ≢ some unset
unfolding parse_status
parse_status-set [] st h = λ e. cc
parse_status-set (b ∷ s) st h = λ e. ground arith

parse_assignee-positive : (s : Text) (a : Option ℕ) → parse_assignee s ≡ parsed a → a ≢ some 0
unfolding parse_assignee
parse_assignee-positive [] a h = λ e. cc
parse_assignee-positive (b ∷ s) a h =
    let (id, read, same) =
      >>=-eq-parsed (positive (ascii "invalid assignee_id") (b ∷ s)) (λ id. parsed (some id)) a h in
    let big = positive_lem (ascii "invalid assignee_id") (b ∷ s) id read in λ e. ground arith

-- The parts that a filter was read from.
pub record Parts (q : Text → Text) (f : TaskFilter) : Type 0 where
  pub team_id : positive (ascii "team_id is required") (q (ascii "team_id")) ≡ parsed f.team_id
  pub status : parse_status (q (ascii "status")) ≡ parsed f.status
  pub assignee_id : parse_assignee (q (ascii "assignee_id")) ≡ parsed f.assignee_id
  pub limit : parse_limit (q (ascii "limit")) ≡ parsed f.limit
  pub after_id : parse_cursor (q (ascii "cursor")) ≡ parsed f.after_id

pub parse_list_filter-Parts :
    (q : Text → Text) (f : TaskFilter) → parse_list_filter q ≡ parsed f → Parts q f
unfolding parse_list_filter
parse_list_filter-Parts q f h = ground arith

-- If a query is read as a filter, the status of the filter is not the empty one, its assignee is
-- not zero, its team is at least one, and its limit is from 1 to 100.
pub parse_list_filter-IsRequest :
    (q : Text → Text) (f : TaskFilter)
    → parse_list_filter q ≡ parsed f
    → IsRequest f × (1 ≤ f.team_id) × (1 ≤ f.limit) × (f.limit ≤ max_limit)
parse_list_filter-IsRequest q f h =
    let parts = parse_list_filter-Parts q f h in
    let (low, high) = parse_limit_bounds (q (ascii "limit")) f.limit parts.limit in
    (
      record {
        status = parse_status-set (q (ascii "status")) f.status parts.status;
        assignee =
            parse_assignee-positive (q (ascii "assignee_id")) f.assignee_id parts.assignee_id;
      },
      positive_lem (ascii "team_id is required") (q (ascii "team_id")) f.team_id parts.team_id,
      low,
      high,
    )

-- The query with another cursor.
abbrev pub with_cursor : Text → (Text → Text) → Text → Text
with_cursor c q key = if text_eq key (ascii "cursor") then c else q key

pub parse_list_filter-with_cursor :
    (q : Text → Text) (f : TaskFilter) (c : ℕ)
    → parse_list_filter q ≡ parsed f
    → 1 ≤ c
    → c < 2 ^ 63
    → parse_list_filter (with_cursor (decimal c) q) ≡ parsed (record f { after_id = c })
unfolding parse_list_filter text_eq
parse_list_filter-with_cursor q f c h one small =
    let parts = parse_list_filter-Parts q f h in
    rw (
      parts.team_id,
      parts.status,
      parts.assignee_id,
      parts.limit,
      parse_cursor-decimal c one small,
    )
