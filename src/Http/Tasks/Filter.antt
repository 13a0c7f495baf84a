-- ===== src/Http/Tasks/Filter.antt =====
-- `parseListFilter` of internal/transport/http/tasks/tasks.go.
use task_tracker.Base.{ℕ, Option, none, some, [], ◌∷◌, Text, ascii, text_eq, if◌then◌else◌, ◌≡◌}
use task_tracker.Domain.{TaskFilter, TaskStatus, todo, in_progress, done}
use task_tracker.Http.Query.{Parsed, parsed, refused, ◌>>=◌, positive, parse_limit, parse_cursor}
pub mod Bounds

unfoldable pub parse_status : Text → Parsed (Option TaskStatus)
parse_status [] = parsed none
parse_status (b ∷ s) =
    if text_eq (b ∷ s) (ascii "todo")
    then parsed (some todo)
    else if text_eq (b ∷ s) (ascii "in_progress")
    then parsed (some in_progress)
    else if text_eq (b ∷ s) (ascii "done")
    then parsed (some done)
    else refused (ascii "invalid status")

unfoldable pub parse_assignee : Text → Parsed (Option ℕ)
parse_assignee [] = parsed none
parse_assignee (b ∷ s) = do id ← positive (ascii "invalid assignee_id") (b ∷ s); parsed (some id)

-- `parseListFilter`
unfoldable pub parse_list_filter : (Text → Text) → Parsed TaskFilter
unfolding parse_status parse_assignee
parse_list_filter q = do
  team_id ← positive (ascii "team_id is required") (q (ascii "team_id"))
  status ← parse_status (q (ascii "status"))
  assignee_id ← parse_assignee (q (ascii "assignee_id"))
  limit ← parse_limit (q (ascii "limit"))
  after_id ← parse_cursor (q (ascii "cursor"))
  parsed (record {
    team_id = team_id;
    status = status;
    assignee_id = assignee_id;
    limit = limit;
    after_id = after_id;
  })
