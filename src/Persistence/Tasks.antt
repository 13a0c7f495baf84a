-- ===== src/Persistence/Tasks.antt =====
-- internal/infrastructure/persistence/task.go over the tables `tasks` and `task_history`.
pub mod History
pub mod Diff
pub mod Redis
pub mod Rows
pub mod Pages
pub mod Created
use task_tracker.Base.{
  ℕ, zero, suc, Bool, true, false, ◌&&◌, not, Option, none, some, List, [], ◌∷◌, ◌++◌, map, keep,
  take, Text, ascii, decimal, text_eq, ltb, ◌==◌, if◌then◌else◌,
}
unfoldable pub use task_tracker.Persistence.TaskFields.{format_id, add_change, diff, completion}
pub use task_tracker.Persistence.TaskFields.{
  is_done, same_status, is_user_or_null, Change, same_option, touched, assign,
}
use task_tracker.Tx.{Outcome, ok, err, panicked, Action, ◌>>=◌, ◌>>◌, pure, raise}
use task_tracker.Domain.{
  Error, Task, TaskStatus, unset, todo, in_progress, done, status_text, TaskChange, TaskFilter,
  change_field_created, internal, not_found,
}
use task_tracker.Store.{
  Env, Db, World, Tables, HistoryRow, counted, query, query_row, exec, find_user, find_team,
  find_task, is_some,
}

-- The last scan of `Update` passes `sql.ErrNoRows` on as it is, which no caller looks for.
abbrev pub or_internal : {A : Type 0} → Option A → Db A
or_internal none = raise internal
or_internal (some a) = pure a

abbrev pub after_cursor : ℕ → ℕ → Bool
after_cursor after_id id = if ltb 0 after_id then ltb after_id id else true

abbrev pub has_status : Option TaskStatus → Task → Bool
has_status none t = true
has_status (some st) t = same_status t.status st

abbrev pub has_assignee : Option ℕ → Option ℕ → Bool
has_assignee none b = true
has_assignee (some a) none = false
has_assignee (some a) (some b) = b == a

-- The `WHERE` clause that `List` builds; the cursor's condition is there only above zero.
abbrev pub matches : TaskFilter → Task → Bool
matches f t =
    if t.team_id == f.team_id
    then (if has_status f.status t
        then (if has_assignee f.assignee_id t.assignee_id
            then after_cursor f.after_id t.id
            else false)
        else false)
    else false

-- The rows that `List` selects; the index hints do not change them.
unfoldable pub select : TaskFilter → Tables → List Task
select f t = take f.limit (keep (matches f) t.tasks)

abbrev null_text : Option Text → Text
null_text none = []
null_text (some v) = v

abbrev pub to_change : HistoryRow → TaskChange
to_change h = record {
  changed_at = h.changed_at;
  group_id = h.change_group_id;
  field = h.field;
  old_value = null_text h.old_value;
  new_value = null_text h.new_value;
  changed_by = h.changed_by;
}

-- The rows that `History` selects, in the order of their insertion.
abbrev pub select_history : ℕ → Tables → List TaskChange
select_history task_id t = map to_change (keep (λ h. h.task_id == task_id) t.history)

module _ (env : Env) where
  -- The insertion into `task_history`; a missing task or user violates a foreign key.
  abbrev insert_history : ℕ → ℕ → Text → Text → Option Text → Option Text → Db (Unit {0})
  insert_history task_id changed_by group_id field old_value new_value = exec env (λ w.
      if is_some (find_task task_id w.tables) && is_some (find_user changed_by w.tables)
      then (
        ok tt,
        record w {
          tables = record w.tables {
            history =
                w.tables.history
                ++ record {
                  task_id = task_id;
                  changed_by = changed_by;
                  change_group_id = group_id;
                  field = field;
                  old_value = old_value;
                  new_value = new_value;
                  changed_at = env.time w.sent;
                }
                  ∷ [];
          };
        },
      )
      else (err internal, w))

  abbrev insert_task : Task → Option ℕ → World → Outcome Error ℕ × World
  insert_task t completed_at w =
      let id = w.counters.next_task in
      let now = env.time w.sent in
      if is_some (find_team t.team_id w.tables)
        && is_user_or_null t.assignee_id w.tables
        && is_some (find_user t.created_by w.tables)
      then (
        ok id,
        record w {
          tables = record w.tables {
            tasks =
                w.tables.tasks
                ++ record t {
                  id = id;
                  created_at = now;
                  updated_at = now;
                  completed_at = completed_at;
                }
                  ∷ [];
          };
          counters = record w.counters { next_task = suc id };
        },
      )
      else (err not_found, w)

  -- `Create`: the task, and the event that it was created.
  unfoldable pub create : Task → Db ℕ
  create t w =
      let now = env.time w.sent in
      let group_id = env.group_id w.sent in
      (do
        id ← exec env (insert_task t (if is_done t.status then some now else none))
        insert_history id t.created_by group_id change_field_created none none
        pure id)
        w

  -- `ByID`
  unfoldable pub by_id : ℕ → Db Task
  by_id id = query_row env (find_task id)

  -- `List`
  unfoldable pub list : TaskFilter → Db (List Task)
  unfolding select
  list f = query env (select f)

  abbrev pub update_row : Task → Option ℕ → Db (Unit {0})
  update_row t completed_at = exec env (λ w.
      if is_user_or_null t.assignee_id w.tables
      then (
        ok tt,
        record w {
          tables = record w.tables {
            tasks = map (assign (env.time w.sent) t completed_at) w.tables.tasks;
          };
        },
      )
      else (err internal, w))

  -- The loop over `changes`, all under one group.
  unfoldable pub record_changes : ℕ → ℕ → Text → List Change → Db (Unit {0})
  record_changes task_id actor group_id [] = pure tt
  record_changes task_id actor group_id (ch ∷ changes) =
      insert_history task_id actor group_id ch.field (some ch.old_value) (some ch.new_value)
      >> record_changes task_id actor group_id changes

  -- `Update`: the row is locked and read, written, its changes are recorded, and it is read again.
  unfoldable pub update : ℕ → Task → Db Task
  unfolding completion diff record_changes
  update actor t w =
      let now = env.time w.sent in
      let group_id = env.group_id w.sent in
      (do
        old ← query_row env (find_task t.id)
        update_row t (completion now t.status old.status old.completed_at)
        record_changes t.id actor group_id (diff old t)
        found ← query env (find_task t.id)
        or_internal found)
        w

  -- `History`
  abbrev pub history : ℕ → Db (List TaskChange)
  history task_id = query env (select_history task_id)
