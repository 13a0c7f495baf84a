-- ===== src/Service/Cache.antt =====
-- internal/infrastructure/cache/tasks.go: the list cache of the tasks, which the service sees as
-- `TaskListCache`. A version for each team stands in every key of its lists; the JSON of a list is
-- taken for the list, and a command that redis refuses does nothing.
pub mod Keys
pub mod Coherence
use task_tracker.Base.{
  ℕ, zero, suc, Bool, true, false, Option, none, some, List, Text, text_eq, ◌==◌, if◌then◌else◌,
}
use task_tracker.Tx.{ok, pure}
use task_tracker.Domain.{Task, TaskFilter, TaskStatus, status_text}
use task_tracker.Store.{Env, Db, World, Redis, ListKey, counted}

abbrev pub or_zero : Option ℕ → ℕ
or_zero none = 0
or_zero (some n) = n

abbrev text_or_empty : Option TaskStatus → Text
text_or_empty none = status_text TaskStatus.unset
text_or_empty (some st) = status_text st

-- `listKey`
unfoldable pub list_key : TaskFilter → ℕ → ListKey
list_key f version = record {
  team_id = f.team_id;
  version = version;
  status = text_or_empty f.status;
  assignee = or_zero f.assignee_id;
  after_id = f.after_id;
  limit = f.limit;
}

unfoldable pub same_key : ListKey → ListKey → Bool
same_key a b =
    if a.team_id == b.team_id
    then (if a.version == b.version
        then (if text_eq a.status b.status
            then (if a.assignee == b.assignee
                then (if a.after_id == b.after_id then a.limit == b.limit else false)
                else false)
            else false)
        else false)
    else false

-- The result of `GetList`: the cached list, or the version to fill, if it could be read.
pub data Lookup : Type 0 where
  hit : List Task → Lookup
  miss : ℕ → Lookup
  version_unknown : Lookup

module _ (env : Env) where
  abbrev get_at_version : TaskFilter → ℕ → World → Lookup × World
  get_at_version f version w = (
    if env.fails w.sent
        then miss version
        else (elim (w.redis.lists (list_key f version)) [ none ↦ miss version | some ts ↦ hit ts ]),
    counted w,
  )

  -- `GetList`, with `version`.
  unfoldable pub get_list : TaskFilter → World → Lookup × World
  get_list f w =
      if env.fails w.sent
      then (version_unknown, counted w)
      else get_at_version f (or_zero (w.redis.versions f.team_id)) (counted w)

  -- `SetList`
  unfoldable pub set_list : TaskFilter → ℕ → List Task → World → World
  set_list f version tasks w = if env.fails w.sent then counted w else record (counted w) {
    redis = record w.redis {
      lists = λ k. if same_key k (list_key f version) then some tasks else w.redis.lists k;
    };
  }

  -- `InvalidateTeam`
  unfoldable pub invalidate_team : ℕ → World → World
  invalidate_team team_id w = if env.fails w.sent then counted w else record (counted w) {
    redis = record w.redis {
      versions = λ t.
          if t == team_id then some (suc (or_zero (w.redis.versions t))) else w.redis.versions t;
    };
  }
