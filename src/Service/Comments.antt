-- ===== src/Service/Comments.antt =====
-- internal/service/comments.go.
pub mod Safety
use task_tracker.Base.{ℕ, Bool, true, false, List, Text, ◌==◌, if◌then◌else◌}
use task_tracker.Tx.{Outcome, ok, err, ◌>>=◌, ◌>>◌, pure, raise, TxManager}
use task_tracker.Domain.{TaskComment, CommentFilter, member}
use task_tracker.Store.{Env, Db, Transactions}
use task_tracker.Persistence.Tasks
use task_tracker.Persistence.Comments
use task_tracker.Service.Authorizer.{require_admin, require_team_role}

module _ (env : Env) where
  -- `requireCanModify`: the author, or a global admin; both must pass the team's test.
  pub require_can_modify : ℕ → ℕ → Db (Unit {0})
  require_can_modify actor_id comment_id = do
    comment ← Comments.by_id env comment_id
    task ← Tasks.by_id env comment.task_id
    require_team_role env actor_id task.team_id member
    if comment.user_id == actor_id then pure tt else require_admin env actor_id

  -- The bodies of the three transactions.
  abbrev pub create_body : ℕ → ℕ → Text → Db TaskComment
  create_body actor_id task_id body = do
    task ← Tasks.by_id env task_id
    require_team_role env actor_id task.team_id member
    id ← Comments.create env task_id actor_id body
    Comments.by_id env id

  pub update_body : ℕ → ℕ → Text → Db TaskComment
  unfolding require_can_modify
  update_body actor_id comment_id body = do
    require_can_modify actor_id comment_id
    Comments.update env comment_id body

  pub delete_body : ℕ → ℕ → Db (Unit {0})
  unfolding require_can_modify
  delete_body actor_id comment_id = do
    require_can_modify actor_id comment_id
    Comments.delete env comment_id

  -- `List`
  abbrev pub list : ℕ → CommentFilter → Db (List TaskComment)
  list actor_id f = do
    task ← Tasks.by_id env f.task_id
    require_team_role env actor_id task.team_id member
    Comments.list env f

  module _ (tx : Transactions) where
    -- `Create`
    abbrev pub create : ℕ → ℕ → Text → Db TaskComment
    create actor_id task_id body = tx.do_tx (create_body actor_id task_id body)

    -- `Update`
    pub update : ℕ → ℕ → Text → Db TaskComment
    unfolding update_body
    update actor_id comment_id body = tx.do_tx (update_body actor_id comment_id body)

    -- `Delete`
    pub delete : ℕ → ℕ → Db (Unit {0})
    unfolding delete_body
    delete actor_id comment_id = tx.do_tx (delete_body actor_id comment_id)
