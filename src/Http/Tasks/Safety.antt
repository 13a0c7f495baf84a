-- ===== src/Http/Tasks/Safety.antt =====
-- What an answer of internal/transport/http/tasks/tasks.go says of the tables.
use task_tracker.Base.{Bool, ℕ, ◌≤◌, ◌≡◌, none, some, ascii, ◌⊎◌, inl, inr, ℤ, parse_int, arith}
use task_tracker.Tx.{Outcome, ok}
use task_tracker.Domain.{
  Error, email_taken, invalid_credentials, not_found, forbidden, already_member, not_team_member,
  internal, Task,
}
use task_tracker.Store.{Env, World, Transactions}
use task_tracker.Service.Tasks
use task_tracker.Service.Tasks.Safety.{Edited, Made, update-Edited, create-Made}
use task_tracker.Http.Kit.{Reply, json, status, Request, decoded, identifier, answer}
use task_tracker.Http.Kit.Gates.{Refused, path_body_gates, body_gates, answer_either}
use task_tracker.Http.Rules.{Rules}
use task_tracker.Http.Tasks.{
  CreateTaskRequest, UpdateTaskRequest, validate_create, validate_update, create_input,
  update_input, TaskResponse, to_task_response, write_failure, create_handler, update_handler,
}

write_failure-code :
    (ended : Bool) (e : Error) → 400 ≤ status (write_failure {B = TaskResponse} ended e)
write_failure-code ended not_found = omega arith
write_failure-code ended forbidden = omega arith
write_failure-code ended not_team_member = omega arith
write_failure-code ended email_taken = ground arith
write_failure-code ended invalid_credentials = ground arith
write_failure-code ended already_member = ground arith
write_failure-code ended internal = ground arith

abbrev shown_task : Task → Reply TaskResponse
shown_task task = json 200 (to_task_response task)

abbrev created_task : Task → Reply TaskResponse
created_task task = json 201 (to_task_response task)

module _ (env : Env) (tx : Transactions) (rules : Rules) where
  -- The request names its user and its task, and its body passes `Validate`; the answer shows the task.
  pub record Updates (req : Request UpdateTaskRequest) (w : World)
      (r : Outcome (Reply TaskResponse) (Reply TaskResponse) × World) : Type 0 where
    pub user_id : ℕ
    pub task_id : ℤ
    pub body : UpdateTaskRequest
    pub task : Task
    pub principal : req.principal ≡ some user_id
    pub in_path : parse_int req.url_id ≡ some task_id
    pub sent : req.body ≡ decoded body
    pub valid : validate_update rules body ≡ none
    pub edited : Edited env user_id (identifier task_id) (update_input body) w task r.1.tables
    pub shown : r.0 ≡ ok (json 200 (to_task_response task))

  -- A request to update a task either is answered with 200, or leaves every table as it was and
  -- ends in a panic or an answer of at least 400. When it is answered with 200, it names its user,
  -- its path names the task, its body passes the validation, the tables have changed as an update
  -- by that user of that task to that body does, and the answer shows the task.
  pub update_handler-Updates :
      (req : Request UpdateTaskRequest) (w : World)
      → Updates req w (update_handler env tx rules req w)
        ⊎ Refused w (update_handler env tx rules req w)
  unfolding update_handler
  update_handler-Updates req w =
      path_body_gates (Updates req w) w req.principal (ascii "invalid task id") req.url_id req.body
        (validate_update rules)
        (λ user_id task_id body.
          answer (Tasks.update env tx user_id task_id (update_input body)) shown_task
            (write_failure req.ended))
        λ user_id task_id body is_user is_task is_body is_valid.
          let call = Tasks.update env tx user_id (identifier task_id) (update_input body) in
          elim (answer_either
            (λ t. Edited env user_id (identifier task_id) (update_input body) w t (call w).1.tables)
            call shown_task (write_failure req.ended) w (write_failure-code req.ended)
            (update-Edited env tx user_id (identifier task_id) (update_input body) w)) [
              | inl (task, shown, edited) ↦ inl (record {
                user_id = user_id;
                task_id = task_id;
                body = body;
                task = task;
                principal = is_user;
                in_path = is_task;
                sent = is_body;
                valid = is_valid;
                edited = edited;
                shown = shown;
              })
              | inr refused ↦ inr refused
            ]

  -- The request names its user, and its body passes `Validate`; the answer shows the new task.
  pub record Creates (req : Request CreateTaskRequest) (w : World)
      (r : Outcome (Reply TaskResponse) (Reply TaskResponse) × World) : Type 0 where
    pub user_id : ℕ
    pub body : CreateTaskRequest
    pub task : Task
    pub principal : req.principal ≡ some user_id
    pub sent : req.body ≡ decoded body
    pub valid : validate_create rules body ≡ none
    pub made : Made env user_id (identifier body.team_id) (create_input body) w task r.1.tables
    pub shown : r.0 ≡ ok (json 201 (to_task_response task))

  -- A request to create a task either is answered with 201, or leaves every table as it was and
  -- ends in a panic or an answer of at least 400. When it is answered with 201, it names its user,
  -- its body passes the validation, that user is an admin or has a role in the team, the assignee
  -- is none or has a role in the team, the tables have gained the new row and the event of its
  -- creation, and the answer shows the new row.
  pub create_handler-Creates :
      (req : Request CreateTaskRequest) (w : World)
      → Creates req w (create_handler env tx rules req w)
        ⊎ Refused w (create_handler env tx rules req w)
  unfolding create_handler
  create_handler-Creates req w =
      body_gates (Creates req w) w req.principal req.body (validate_create rules)
        (λ user_id body.
          answer (Tasks.create env tx user_id (identifier body.team_id) (create_input body))
            created_task (write_failure req.ended))
        λ user_id body is_user is_body is_valid.
          let call = Tasks.create env tx user_id (identifier body.team_id) (create_input body) in
          elim (answer_either
            (λ t.
              Made env user_id (identifier body.team_id) (create_input body) w t (call w).1.tables)
            call created_task (write_failure req.ended) w (write_failure-code req.ended)
            (create-Made env tx user_id (identifier body.team_id) (create_input body) w)) [
              | inl (task, shown, made) ↦ inl (record {
                user_id = user_id;
                body = body;
                task = task;
                principal = is_user;
                sent = is_body;
                valid = is_valid;
                made = made;
                shown = shown;
              })
              | inr refused ↦ inr refused
            ]
