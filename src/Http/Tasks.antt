-- ===== src/Http/Tasks.antt =====
-- internal/transport/http/tasks: dto.go and tasks.go.
use task_tracker.Base.{
  ℕ, Bool, Option, none, some, List, [], ◌∷◌, Text, ascii, text_eq, map, ℤ, pos, if◌then◌else◌,
}
use mathlib.Core.Option
use task_tracker.Tx.{Outcome, ok, err, ◌>>=◌, ◌>>◌}
use task_tracker.Domain.{
  Error, not_found, forbidden, not_team_member, Task, TaskChange, TaskFilter, TaskStatus, unset,
  todo, in_progress, done, status_text,
}
use task_tracker.Store.{Env, Transactions}
use task_tracker.Service.Tasks
use task_tracker.Service.Tasks.{TaskInput}
use task_tracker.Http.Kit.{
  Reply, json, error, Request, Handler, error_text, write_internal_error, principal_of, decode_json,
  check, identifier, path_id, answer,
}
use task_tracker.Http.Rules.{Rules}
use task_tracker.Http.Query.{next_cursor, parsed_or_400}
use task_tracker.Http.Tasks.Filter.{parse_list_filter}
pub mod Filter
pub mod Safety
pub mod Cursor
pub mod Walk

pub record CreateTaskRequest : Type 0 where
  pub assignee_id : Option ℤ
  pub title : Text
  pub description : Text
  pub status : Text
  pub team_id : ℤ

pub record UpdateTaskRequest : Type 0 where
  pub assignee_id : Option ℤ
  pub title : Text
  pub description : Text
  pub status : Text

abbrev pub valid_statuses : List Text
valid_statuses = ascii "todo" ∷ ascii "in_progress" ∷ ascii "done" ∷ []

abbrev pub max_description_len : ℕ
max_description_len = 10_000

-- The two `Validate` methods.
module _ (rules : Rules) where
  unfoldable pub validate_create : CreateTaskRequest → Option Text
  validate_create r = rules.validate_struct (
      (rules.required_int r.team_id ∷ rules.min_int (pos 1) r.team_id ∷ [])
      ∷ (rules.required r.title ∷ rules.length_in 1 500 r.title ∷ [])
      ∷ (rules.length_in 0 max_description_len r.description ∷ [])
      ∷ (rules.one_of valid_statuses r.status ∷ [])
      ∷ [])

  unfoldable pub validate_update : UpdateTaskRequest → Option Text
  validate_update r = rules.validate_struct (
      (rules.required r.title ∷ rules.length_in 1 500 r.title ∷ [])
      ∷ (rules.length_in 0 max_description_len r.description ∷ [])
      ∷ (rules.required r.status ∷ rules.one_of valid_statuses r.status ∷ [])
      ∷ [])

-- `domain.TaskStatus(s)`, of a text that has passed `Validate`.
unfoldable pub task_status : Text → TaskStatus
task_status s =
    if text_eq s (ascii "todo")
    then todo
    else if text_eq s (ascii "in_progress")
    then in_progress
    else if text_eq s (ascii "done")
    then done
    else unset

abbrev pub create_input : CreateTaskRequest → TaskInput
create_input r = record {
  title = r.title;
  description = r.description;
  status = task_status r.status;
  assignee_id = Option.map identifier r.assignee_id;
}

abbrev pub update_input : UpdateTaskRequest → TaskInput
update_input r = record {
  title = r.title;
  description = r.description;
  status = task_status r.status;
  assignee_id = Option.map identifier r.assignee_id;
}

pub record TaskResponse : Type 0 where
  pub created_at : ℕ
  pub updated_at : ℕ
  pub completed_at : Option ℕ
  pub assignee_id : Option ℕ
  pub title : Text
  pub description : Text
  pub status : Text
  pub id : ℕ
  pub team_id : ℕ
  pub created_by : ℕ

pub record TaskListResponse : Type 0 where
  pub next_cursor : Option ℕ
  pub items : List TaskResponse

pub record ChangeResponse : Type 0 where
  pub changed_at : ℕ
  pub change_group_id : Text
  pub field : Text
  pub old_value : Text
  pub new_value : Text
  pub changed_by : ℕ

-- `toTaskResponse`
abbrev pub to_task_response : Task → TaskResponse
to_task_response t = record {
  id = t.id;
  team_id = t.team_id;
  title = t.title;
  description = t.description;
  status = status_text t.status;
  assignee_id = t.assignee_id;
  created_by = t.created_by;
  created_at = t.created_at;
  updated_at = t.updated_at;
  completed_at = t.completed_at;
}

abbrev pub to_change_response : TaskChange → ChangeResponse
to_change_response c = record {
  change_group_id = c.group_id;
  field = c.field;
  old_value = c.old_value;
  new_value = c.new_value;
  changed_by = c.changed_by;
  changed_at = c.changed_at;
}

-- The switch of `listHandler` and `historyHandler`.
abbrev pub read_failure : {B : Type 0} → Bool → Error → Reply B
read_failure ended not_found = error 404 (error_text not_found)
read_failure ended forbidden = error 403 (error_text forbidden)
read_failure ended _ = write_internal_error ended

-- The switch of `createHandler` and `updateHandler`.
abbrev pub write_failure : {B : Type 0} → Bool → Error → Reply B
write_failure ended not_found = error 404 (error_text not_found)
write_failure ended forbidden = error 403 (error_text forbidden)
write_failure ended not_team_member = error 400 (error_text not_team_member)
write_failure ended _ = write_internal_error ended

abbrev pub task_page : TaskFilter → List Task → TaskListResponse
task_page f tasks = record {
  items = map to_task_response tasks;
  next_cursor = next_cursor f.limit (map (λ (t : Task). t.id) tasks);
}

module _ (env : Env) where
  -- `listHandler`
  unfoldable pub list_handler : Request (Unit {0}) → Handler TaskListResponse
  list_handler req = do
    user_id ← principal_of req.principal
    filter ← parsed_or_400 (parse_list_filter req.query)
    answer (Tasks.list env user_id filter) (λ tasks. json 200 (task_page filter tasks))
        (read_failure req.ended)

  -- `historyHandler`
  unfoldable pub history_handler : Request (Unit {0}) → Handler (List ChangeResponse)
  history_handler req = do
    user_id ← principal_of req.principal
    task_id ← path_id (ascii "invalid task id") req.url_id
    answer (Tasks.history env user_id task_id)
        (λ changes. json 200 (map to_change_response changes)) (read_failure req.ended)

  module _ (tx : Transactions) (rules : Rules) where
    -- `createHandler`
    unfoldable pub create_handler : Request CreateTaskRequest → Handler TaskResponse
    create_handler req = do
      user_id ← principal_of req.principal
      body ← decode_json req.body
      check (validate_create rules body)
      answer (Tasks.create env tx user_id (identifier body.team_id) (create_input body))
          (λ task. json 201 (to_task_response task)) (write_failure req.ended)

    -- `updateHandler`
    unfoldable pub update_handler : Request UpdateTaskRequest → Handler TaskResponse
    update_handler req = do
      user_id ← principal_of req.principal
      task_id ← path_id (ascii "invalid task id") req.url_id
      body ← decode_json req.body
      check (validate_update rules body)
      answer (Tasks.update env tx user_id task_id (update_input body))
          (λ task. json 200 (to_task_response task)) (write_failure req.ended)
