-- ===== src/Service/Authorizer.antt =====
-- internal/service/authorizer.go: who may act. The repositories are those of Persistence.
pub mod Access
use task_tracker.Base.{ℕ, Bool, true, false, if◌then◌else◌}
use task_tracker.Tx.{Outcome, ok, err, ◌>>=◌, ◌>>◌, pure, raise}
use task_tracker.Domain.{TeamRole, at_least, Role, user, global_admin, User, forbidden}
use task_tracker.Store.{Env, Db}
use task_tracker.Persistence.Users
use task_tracker.Persistence.Teams

abbrev pub is_admin : User → Bool
is_admin u = elim u.role [ user ↦ false | global_admin ↦ true ]

module _ (env : Env) where
  -- `RequireAdmin`
  unfoldable pub require_admin : ℕ → Db (Unit {0})
  require_admin actor_id = do
    actor ← Users.by_id env actor_id
    if is_admin actor then pure tt else raise forbidden

  -- `RequireTeamRole`: an admin passes; a role that is missing is `ErrNotFound`.
  unfoldable pub require_team_role : ℕ → ℕ → TeamRole → Db (Unit {0})
  require_team_role actor_id team_id least = do
    actor ← Users.by_id env actor_id
    if is_admin actor then pure tt else do
      role ← Teams.member_role env team_id actor_id
      if at_least role least then pure tt else raise forbidden
