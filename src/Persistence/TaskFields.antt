-- ===== src/Persistence/TaskFields.antt =====
-- The columns of a task that an update of internal/infrastructure/persistence/task.go compares and sets:
-- `diff`, `addChange`, `formatID` and the `CASE` of `completed_at`.
use task_tracker.Base.{
  ℕ, Bool, true, false, ◌&&◌, Option, none, some, List, [], ◌∷◌, ◌++◌, Text, ascii, decimal,
  text_eq, ◌==◌, if◌then◌else◌,
}
use task_tracker.Domain.{Task, TaskStatus, unset, todo, in_progress, done, status_text}
use task_tracker.Store.{Tables, find_user, is_some}

abbrev pub is_done : TaskStatus → Bool
is_done unset = false
is_done todo = false
is_done in_progress = false
is_done done = true

abbrev pub same_status : TaskStatus → TaskStatus → Bool
same_status unset unset = true
same_status todo todo = true
same_status in_progress in_progress = true
same_status done done = true
same_status _ _ = false

-- An optional foreign key: NULL, or a user that is there.
abbrev pub is_user_or_null : Option ℕ → Tables → Bool
is_user_or_null none t = true
is_user_or_null (some id) t = is_some (find_user id t)

-- `formatID`
unfoldable pub format_id : Option ℕ → Text
format_id none = []
format_id (some id) = decimal id

-- A change before its group, author and time are known.
pub record Change : Type 0 where
  pub field : Text
  pub old_value : Text
  pub new_value : Text

-- `addChange`
unfoldable pub add_change : List Change → Text → Text → Text → List Change
add_change changes field old_v new_v =
    if text_eq old_v new_v
    then changes
    else changes ++ record { field = field; old_value = old_v; new_value = new_v } ∷ []

-- The changes that `Update` records.
unfoldable pub diff : Task → Task → List Change
unfolding add_change format_id
diff old t =
    add_change
      (add_change
        (add_change (add_change [] (ascii "title") old.title t.title) (ascii "description")
          old.description t.description)
        (ascii "status") (status_text old.status) (status_text t.status))
      (ascii "assignee_id") (format_id old.assignee_id) (format_id t.assignee_id)

-- The `completedAt` that `Update` writes: a task that stays done keeps its time.
unfoldable pub completion : ℕ → TaskStatus → TaskStatus → Option ℕ → Option ℕ
completion now new_status old_status old_time =
    if is_done new_status then (if is_done old_status then old_time else some now) else none

abbrev pub same_option : Option ℕ → Option ℕ → Bool
same_option none none = true
same_option none (some b) = false
same_option (some a) none = false
same_option (some a) (some b) = a == b

-- `ON UPDATE CURRENT_TIMESTAMP` acts when the row changes.
abbrev pub touched : ℕ → Task → Task → Task
touched now old new =
    if text_eq old.title new.title
      && text_eq old.description new.description
      && same_status old.status new.status
      && same_option old.assignee_id new.assignee_id
      && same_option old.completed_at new.completed_at
    then new
    else record new { updated_at = now }

-- The assignments of the `UPDATE` to one row.
abbrev pub assign : ℕ → Task → Option ℕ → Task → Task
assign now t completed_at r =
    if r.id == t.id
    then touched now r (record r {
      title = t.title;
      description = t.description;
      status = t.status;
      assignee_id = t.assignee_id;
      completed_at = completed_at;
    })
    else r
