-- ===== src/Persistence/Analytics.antt =====
-- internal/infrastructure/persistence/analytics.go: the three reports as queries over the tables. The
-- instants `NOW() - INTERVAL 7 DAY` and `NOW() - INTERVAL 1 MONTH` of a statement are arguments.
pub mod Orphans
pub mod Tally
pub mod Report
pub mod Creators
use task_tracker.Base.{
  ℕ, suc, ◌+◌, Bool, true, false, not, Option, none, some, List, [], ◌∷◌, ◌++◌, map, keep, take,
  length, flatten, ltb, leb, ◌==◌, if◌then◌else◌,
}
use task_tracker.Domain.{Task, Team, User, TeamStats, TeamTopCreator, OrphanAssignee}
use task_tracker.Store.{
  Env, Db, World, Tables, Member, query, find_user, find_team, find_member, is_some,
}
use task_tracker.Persistence.Tasks.{is_done}

-- `completed_at >= NOW() - INTERVAL 7 DAY`; NULL is not.
abbrev is_since : ℕ → Option ℕ → Bool
is_since instant none = false
is_since instant (some at) = leb instant at

abbrev is_done_since : ℕ → ℕ → Task → Bool
is_done_since instant team_id t =
    if t.team_id == team_id
    then (if is_done t.status then is_since instant t.completed_at else false)
    else false

-- The two outer joins: a team without rows counts zero.
abbrev stats_of : ℕ → Tables → Team → TeamStats
stats_of instant t team = record {
  name = team.name;
  id = team.id;
  members = length (keep (λ m. m.team_id == team.id) t.members);
  done_last_7_days = length (keep (is_done_since instant team.id) t.tasks);
}

abbrev pub select_stats : ℕ → ℕ → ℕ → Tables → List TeamStats
select_stats instant after_id limit t =
    map (stats_of instant t) (take limit (keep (λ team. ltb after_id team.id) t.teams))

-- The row of a task with this assignee, if that user has no role in its team.
abbrev pub orphan_as : Tables → Task → Option ℕ → Option OrphanAssignee
orphan_as t task none = none
orphan_as t task (some a) =
    if is_some (find_member task.team_id a t)
    then none
    else some
        (record { title = task.title; task_id = task.id; team_id = task.team_id; assignee_id = a })

abbrev pub add_orphan : Bool → Option OrphanAssignee → List OrphanAssignee → List OrphanAssignee
add_orphan above none rest = rest
add_orphan true (some o) rest = o ∷ rest
add_orphan false (some o) rest = rest

-- The rows of the `WHERE` clause.
unfoldable pub orphans : Tables → ℕ → List Task → List OrphanAssignee
orphans t after_id [] = []
orphans t after_id (task ∷ tasks) =
    add_orphan (ltb after_id task.id) (orphan_as t task task.assignee_id) (orphans t after_id tasks)

unfoldable pub select_orphans : ℕ → ℕ → Tables → List OrphanAssignee
unfolding orphans
select_orphans after_id limit t = take limit (orphans t after_id t.tasks)

-- An ascending list without repetitions, with one more element.
unfoldable pub insert_distinct : ℕ → List ℕ → List ℕ
insert_distinct a [] = a ∷ []
insert_distinct a (b ∷ bs) =
    let rest = insert_distinct a bs in
    if ltb a b then a ∷ b ∷ bs else if a == b then b ∷ bs else b ∷ rest

-- `SELECT DISTINCT … ORDER BY`
unfoldable pub distinct : (Task → ℕ) → List Task → List ℕ
unfolding insert_distinct
distinct key [] = []
distinct key (t ∷ tasks) = insert_distinct (key t) (distinct key tasks)

pub record Created : Type 0 where
  pub created_by : ℕ
  pub cnt : ℕ

-- `ORDER BY c.cnt DESC, c.created_by`
abbrev pub comes_before : Created → Created → Bool
comes_before a b =
    if ltb b.cnt a.cnt
    then true
    else (if a.cnt == b.cnt then leb a.created_by b.created_by else false)

unfoldable pub insert_created : Created → List Created → List Created
insert_created a [] = a ∷ []
insert_created a (b ∷ bs) =
    let rest = insert_created a bs in if comes_before a b then a ∷ b ∷ bs else b ∷ rest

unfoldable pub sort_created : List Created → List Created
unfolding insert_created
sort_created [] = []
sort_created (a ∷ rest) = insert_created a (sort_created rest)

-- The tasks of the last month.
abbrev recent : ℕ → List Task → List Task
recent instant tasks = keep (λ t. leb instant t.created_at) tasks

-- `created` for one team.
unfoldable pub created_of : ℕ → Tables → ℕ → List Created
unfolding distinct
created_of instant t team_id =
    let own = keep (λ task. task.team_id == team_id) (recent instant t.tasks) in
    map
      (λ u. record {
        created_by = u;
        cnt = length (keep (λ (task : Task). task.created_by == u) own);
      })
      (distinct (λ task. task.created_by) own)

-- `ranked` for one team.
unfoldable pub ranked : ℕ → Tables → ℕ → List Created
unfolding sort_created created_of
ranked instant t team_id = sort_created (created_of instant t team_id)

-- The inner joins: a row whose team or user is not there is dropped.
abbrev joined : ℕ → ℕ → Created → Option Team → Option User → List TeamTopCreator
joined team_id rank c none u = []
joined team_id rank c (some team) none = []
joined team_id rank c (some team) (some u) =
    record {
      team_name = team.name;
      user_name = u.name;
      team_id = team_id;
      user_id = c.created_by;
      tasks_created = c.cnt;
      rank = rank;
    }
    ∷ []

abbrev pub named : Tables → ℕ → ℕ → Created → List TeamTopCreator
named t team_id rank c = joined team_id rank c (find_team team_id t) (find_user c.created_by t)

unfoldable pub name_all : Tables → ℕ → ℕ → List Created → List TeamTopCreator
name_all t team_id rank [] = []
name_all t team_id rank (c ∷ cs) = named t team_id rank c ++ name_all t team_id (suc rank) cs

-- The rows of one team: `rn <= 3`.
unfoldable pub top_of : ℕ → Tables → ℕ → List TeamTopCreator
unfolding ranked name_all
top_of instant t team_id = name_all t team_id 1 (take 3 (ranked instant t team_id))

unfoldable pub select_creators : ℕ → ℕ → ℕ → Tables → List TeamTopCreator
unfolding top_of distinct
select_creators instant after_id limit t =
    let page =
      take limit
        (keep (λ id. ltb after_id id) (distinct (λ task. task.team_id) (recent instant t.tasks))) in
    flatten (map (top_of instant t) page)

module _ (env : Env) (week_ago month_ago : ℕ → ℕ) where
  -- `TeamStats`
  unfoldable pub team_stats : ℕ → ℕ → Db (List TeamStats)
  team_stats after_id limit w = query env (select_stats (week_ago w.sent) after_id limit) w

  -- `TopCreators`
  unfoldable pub top_creators : ℕ → ℕ → Db (List TeamTopCreator)
  unfolding select_creators
  top_creators after_id limit w = query env (select_creators (month_ago w.sent) after_id limit) w

module _ (env : Env) where
  -- `OrphanAssignees`
  unfoldable pub orphan_assignees : ℕ → ℕ → Db (List OrphanAssignee)
  unfolding select_orphans
  orphan_assignees after_id limit = query env (select_orphans after_id limit)
