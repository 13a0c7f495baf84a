-- ===== src/Service/Tasks.antt =====
-- internal/service/tasks.go.
pub mod Safety
pub mod Cached
pub mod Invalidation
use task_tracker.Base.{ℕ, Bool, Option, none, some, List, Text}
use task_tracker.Tx.{Outcome, ok, err, panicked, ◌>>=◌, ◌>>◌, pure, raise, TxManager}
use task_tracker.Domain.{
  Error, Task, TaskStatus, unset, todo, TaskFilter, TaskChange, member, not_found, not_team_member,
}
use task_tracker.Store.{Env, Db, World, Transactions}
use task_tracker.Persistence.Teams
use task_tracker.Persistence.Tasks
use task_tracker.Service.Authorizer.{require_team_role}
use task_tracker.Service.Auth.{map_error}
use task_tracker.Service.Cache
use task_tracker.Service.Cache.{Lookup, hit, miss, version_unknown}

pub record TaskInput : Type 0 where
  pub assignee_id : Option ℕ
  pub title : Text
  pub description : Text
  pub status : TaskStatus

-- `status == ""` becomes `todo`.
abbrev pub status_or_todo : TaskStatus → TaskStatus
status_or_todo unset = todo
status_or_todo st = st

abbrev not_a_member : Error → Error
not_a_member not_found = not_team_member
not_a_member e = e

-- The task that `Create` inserts.
abbrev pub new_task : ℕ → ℕ → TaskInput → Task
new_task actor_id team_id input = record {
  created_at = 0;
  updated_at = 0;
  completed_at = none;
  assignee_id = input.assignee_id;
  title = input.title;
  description = input.description;
  status = status_or_todo input.status;
  id = 0;
  team_id = team_id;
  created_by = actor_id;
}

-- The task that `Update` writes.
abbrev pub edited : Task → TaskInput → Task
edited current input = record current {
  title = input.title;
  description = input.description;
  status = input.status;
  assignee_id = input.assignee_id;
}

module _ (env : Env) where
  -- `requireAssigneeIsMember`
  pub require_assignee_is_member : ℕ → Option ℕ → Db (Unit {0})
  require_assignee_is_member team_id none = pure tt
  require_assignee_is_member team_id (some id) =
      map_error not_a_member (Teams.member_role env team_id id) >> pure tt

  -- A call of the cache changes redis and cannot fail.
  abbrev pub invalidate : ℕ → Db (Unit {0})
  invalidate team_id w = (ok tt, Cache.invalidate_team env team_id w)

  abbrev pub look_up : TaskFilter → Db Lookup
  look_up f w = let (found, w') = Cache.get_list env f w in (ok found, w')

  abbrev pub fill : TaskFilter → Lookup → List Task → Db (List Task)
  fill f (hit _) tasks w = (ok tasks, w)
  fill f version_unknown tasks w = (ok tasks, w)
  fill f (miss version) tasks w = (ok tasks, Cache.set_list env f version tasks w)

  -- What `List` does after it has asked the cache.
  abbrev pub answer : TaskFilter → Lookup → Db (List Task)
  answer f (hit tasks) = pure tasks
  answer f (miss version) = do tasks ← Tasks.list env f; fill f (miss version) tasks
  answer f version_unknown = do tasks ← Tasks.list env f; fill f version_unknown tasks

  -- `List`
  unfoldable pub list : ℕ → TaskFilter → Db (List Task)
  list actor_id f = do
    require_team_role env actor_id f.team_id member
    found ← look_up f
    answer f found

  -- `History`
  abbrev pub history : ℕ → ℕ → Db (List TaskChange)
  history actor_id task_id = do
    task ← Tasks.by_id env task_id
    require_team_role env actor_id task.team_id member
    Tasks.history env task_id

  -- The body of the transaction of `Create`.
  pub create_body : Task → Db Task
  create_body t = do id ← Tasks.create env t; Tasks.by_id env id

  -- The body of the transaction of `Update`.
  pub update_body : ℕ → ℕ → TaskInput → Db Task
  unfolding require_assignee_is_member
  update_body actor_id task_id input = do
    current ← Tasks.by_id env task_id
    require_team_role env actor_id current.team_id member
    require_assignee_is_member current.team_id input.assignee_id
    Tasks.update env actor_id (edited current input)

  module _ (tx : Transactions) where
    -- `Create`
    unfoldable pub create : ℕ → ℕ → TaskInput → Db Task
    unfolding create_body require_assignee_is_member
    create actor_id team_id input = do
      require_team_role env actor_id team_id member
      require_assignee_is_member team_id input.assignee_id
      created ← tx.do_tx (create_body (new_task actor_id team_id input))
      invalidate team_id
      pure created

    -- `Update`
    unfoldable pub update : ℕ → ℕ → TaskInput → Db Task
    unfolding update_body
    update actor_id task_id input = do
      updated ← tx.do_tx (update_body actor_id task_id input)
      invalidate updated.team_id
      pure updated
