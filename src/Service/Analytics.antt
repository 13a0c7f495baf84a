-- ===== src/Service/Analytics.antt =====
-- internal/service/analytics.go: the reports, which only an admin gets.
pub mod Access
use task_tracker.Base.{ℕ, List}
use task_tracker.Tx.{Outcome, ok, err, ◌>>=◌, ◌>>◌}
use task_tracker.Domain.{TeamStats, TeamTopCreator, OrphanAssignee}
use task_tracker.Store.{Env, Db}
use task_tracker.Persistence.Analytics
use task_tracker.Service.Authorizer.{require_admin}

module _ (env : Env) (week_ago month_ago : ℕ → ℕ) where
  -- `TeamStats`
  unfoldable pub team_stats : ℕ → ℕ → ℕ → Db (List TeamStats)
  team_stats actor_id after_id limit =
      require_admin env actor_id >> Analytics.team_stats env week_ago month_ago after_id limit

  -- `TopCreators`
  unfoldable pub top_creators : ℕ → ℕ → ℕ → Db (List TeamTopCreator)
  top_creators actor_id after_id limit =
      require_admin env actor_id >> Analytics.top_creators env week_ago month_ago after_id limit

module _ (env : Env) where
  -- `OrphanAssignees`
  unfoldable pub orphan_assignees : ℕ → ℕ → ℕ → Db (List OrphanAssignee)
  orphan_assignees actor_id after_id limit =
      require_admin env actor_id >> Analytics.orphan_assignees env after_id limit
