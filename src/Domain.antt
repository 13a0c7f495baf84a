-- ===== src/Domain.antt =====
-- internal/domain: the entities, their roles and the errors. Identifiers are int64 values that are
-- only compared, so they are naturals; an instant is a natural too.
use task_tracker.Base.{ℕ, Bool, Option, Text, ascii, leb}

-- The texts of `TaskStatus`; `unset` is the empty string of a request that gives none.
pub data TaskStatus : Type 0 where
  unset todo in_progress done : TaskStatus

abbrev pub status_text : TaskStatus → Text
status_text unset = ascii ""
status_text todo = ascii "todo"
status_text in_progress = ascii "in_progress"
status_text done = ascii "done"

pub record Task : Type 0 where
  pub created_at : ℕ
  pub updated_at : ℕ
  pub completed_at : Option ℕ
  pub assignee_id : Option ℕ
  pub title : Text
  pub description : Text
  pub status : TaskStatus
  pub id : ℕ
  pub team_id : ℕ
  pub created_by : ℕ

abbrev pub change_field_created : Text
change_field_created = ascii "created"

pub record TaskChange : Type 0 where
  pub changed_at : ℕ
  pub group_id : Text
  pub field : Text
  pub old_value : Text
  pub new_value : Text
  pub changed_by : ℕ

pub record TaskFilter : Type 0 where
  pub status : Option TaskStatus
  pub assignee_id : Option ℕ
  pub team_id : ℕ
  pub limit : ℕ
  pub after_id : ℕ

pub record TaskComment : Type 0 where
  pub created_at : ℕ
  pub updated_at : ℕ
  pub body : Text
  pub id : ℕ
  pub task_id : ℕ
  pub user_id : ℕ

pub record CommentFilter : Type 0 where
  pub task_id : ℕ
  pub limit : ℕ
  pub after_id : ℕ

pub data TeamRole : Type 0 where
  member admin owner : TeamRole

-- `teamRoleRank`
unfoldable pub team_role_rank : TeamRole → ℕ
team_role_rank member = 1
team_role_rank admin = 2
team_role_rank owner = 3

-- `TeamRole.AtLeast`
unfoldable pub at_least : TeamRole → TeamRole → Bool
unfolding team_role_rank
at_least role least = leb (team_role_rank least) (team_role_rank role)

pub record Team : Type 0 where
  pub created_at : ℕ
  pub name : Text
  pub id : ℕ
  pub created_by : ℕ

pub record TeamMembership : Type 0 where
  pub name : Text
  pub role : TeamRole
  pub id : ℕ

-- The two values of `domain.Role`.
pub data Role : Type 0 where
  user global_admin : Role

pub record User : Type 0 where
  pub created_at : ℕ
  pub email : Text
  pub name : Text
  pub password_hash : Text
  pub role : Role
  pub id : ℕ

-- The domain's errors, which `errors.Is` finds under any wrapping, and every other error.
pub data Error : Type 0 where
  email_taken invalid_credentials not_found forbidden already_member not_team_member : Error
  internal : Error

-- The rows of the analytics reports.
pub record TeamStats : Type 0 where
  pub name : Text
  pub id : ℕ
  pub members : ℕ
  pub done_last_7_days : ℕ

pub record TeamTopCreator : Type 0 where
  pub team_name : Text
  pub user_name : Text
  pub team_id : ℕ
  pub user_id : ℕ
  pub tasks_created : ℕ
  pub rank : ℕ

pub record OrphanAssignee : Type 0 where
  pub title : Text
  pub task_id : ℕ
  pub team_id : ℕ
  pub assignee_id : ℕ
