-- ===== src/Service/Analytics/Access.antt =====
-- Who gets the reports of internal/service/analytics.go.
use task_tracker.Base.{ℕ, ◌≡◌, refl, subst, sym, ap, ◌∙◌, true, List, some, All}
use task_tracker.Tx.{ok, ◌>>◌, bind-ok}
use task_tracker.Persistence.Analytics.Orphans.{OfOrphan, orphan_assignees-OfOrphan}
use task_tracker.Domain.{User, TeamStats, TeamTopCreator, OrphanAssignee}
use task_tracker.Store.{Env, Db, World, Tables, find_user, query, query-ok}
use task_tracker.Persistence.Analytics
use task_tracker.Persistence.Analytics.{select_stats, select_creators, select_orphans}
use task_tracker.Service.Authorizer.{is_admin, require_admin}
use task_tracker.Service.Authorizer.Access.{require_admin-ok, require_admin-reads}
use task_tracker.Service.Analytics.{team_stats, top_creators, orphan_assignees}

-- The actor is a user with the role of an admin.
abbrev pub IsAdmin : Tables → ℕ → Type 0
IsAdmin t actor_id = (u : User) × (find_user actor_id t ≡ some u) × (is_admin u ≡ true)

module _ (env : Env) where
  guarded-ok :
      {A : Type 0} (actor_id : ℕ) (report : Db A) (select : World → Tables → A) (w : World) (a : A)
      → ((v : World) → (report v).0 ≡ (query env (select v) v).0)
      → ((require_admin env actor_id >> report) w).0 ≡ ok a
      → IsAdmin w.tables actor_id × (select (require_admin env actor_id w).1 w.tables ≡ a)
  guarded-ok actor_id report select w a is_query h =
      let guard = require_admin env actor_id in
      let (_, passed, more, _) = bind-ok guard (λ _. report) w a h in
      let v = (guard w).1 in
      (
        require_admin-ok env actor_id w passed,
        ap (select v) (sym (require_admin-reads env actor_id w))
            ∙ query-ok env (select v) v a (sym (is_query v) ∙ more),
      )

  -- If the report on orphan assignees returns rows, the actor is an admin, and each row is that of
  -- a task above the cursor whose assignee has no role in its team.
  pub orphan_assignees-IsAdmin :
      (actor_id after_id limit : ℕ) (w : World) (os : List OrphanAssignee)
      → (orphan_assignees env actor_id after_id limit w).0 ≡ ok os
      → IsAdmin w.tables actor_id × All (OfOrphan w.tables after_id w.tables.tasks) os
  unfolding orphan_assignees
  orphan_assignees-IsAdmin actor_id after_id limit w os h =
      let guard = require_admin env actor_id in
      let (_, passed, more, _) =
        bind-ok guard (λ _. Analytics.orphan_assignees env after_id limit) w os h in
      let v = (guard w).1 in
      (
        require_admin-ok env actor_id w passed,
        subst (λ ts. All (OfOrphan ts after_id ts.tasks) os) (require_admin-reads env actor_id w)
            (orphan_assignees-OfOrphan env after_id limit v os more),
      )

  module _ (week_ago month_ago : ℕ → ℕ) where
    -- If the report on teams returns rows, the actor is an admin, and the rows are those that the
    -- query selects from the tables before the call, counted back from the time of its statement.
    pub team_stats-IsAdmin :
        (actor_id after_id limit : ℕ) (w : World) (rows : List TeamStats)
        → (team_stats env week_ago month_ago actor_id after_id limit w).0 ≡ ok rows
        → IsAdmin w.tables actor_id
          × (select_stats (week_ago (require_admin env actor_id w).1.sent) after_id limit w.tables
              ≡ rows)
    unfolding team_stats Analytics.team_stats
    team_stats-IsAdmin actor_id after_id limit w rows h =
        guarded-ok actor_id (Analytics.team_stats env week_ago month_ago after_id limit)
          (λ v. select_stats (week_ago v.sent) after_id limit) w rows (λ v. refl) h

    -- If the report on top creators returns rows, the actor is an admin, and the rows are those
    -- that the query selects from the tables before the call, counted back from the time of its
    -- statement.
    pub top_creators-IsAdmin :
        (actor_id after_id limit : ℕ) (w : World) (rows : List TeamTopCreator)
        → (top_creators env week_ago month_ago actor_id after_id limit w).0 ≡ ok rows
        → IsAdmin w.tables actor_id
          × (select_creators
                (month_ago (require_admin env actor_id w).1.sent)
                after_id
                limit
                w.tables
              ≡ rows)
    unfolding top_creators Analytics.top_creators
    top_creators-IsAdmin actor_id after_id limit w rows h =
        guarded-ok actor_id (Analytics.top_creators env week_ago month_ago after_id limit)
          (λ v. select_creators (month_ago v.sent) after_id limit) w rows (λ v. refl) h
