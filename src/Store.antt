-- ===== src/Store.antt =====
-- The state that the services share: the MySQL tables of migrations/, with their auto-increment
-- counters, and the redis keys of the task cache. Every statement sent to either server is counted,
-- and what that server does with it is the argument `Env`, indexed by the count.
pub mod Undone
use task_tracker.Base.{
  ℕ, zero, suc, ◌+◌, Bool, true, false, ◌&&◌, ◌||◌, Option, none, some, List, [], ◌∷◌, ◌++◌, Text,
  find?, ◌==◌, if◌then◌else◌, ◌≡◌, Bool-cases, inl, inr,
}
use task_tracker.Domain.{
  Task, TaskStatus, TaskComment, TeamRole, Team, User, Error, internal, not_found,
}
use task_tracker.Tx.{Outcome, ok, err, panicked, Action, TxManager}
use task_tracker.Outbox.Table.{Row}

pub record Member : Type 0 where
  pub team_id : ℕ
  pub user_id : ℕ
  pub role : TeamRole

-- A row of `task_history`; NULL is `none`.
pub record HistoryRow : Type 0 where
  pub task_id : ℕ
  pub changed_by : ℕ
  pub change_group_id : Text
  pub field : Text
  pub old_value : Option Text
  pub new_value : Option Text
  pub changed_at : ℕ

-- Each table lists its rows in the order of its key.
pub record Tables : Type 0 where
  pub users : List User
  pub teams : List Team
  pub members : List Member
  pub tasks : List Task
  pub history : List HistoryRow
  pub comments : List TaskComment
  pub outbox : List Row

-- The next value of each auto-increment counter. A rollback does not give values back.
pub record Counters : Type 0 where
  pub next_user : ℕ
  pub next_team : ℕ
  pub next_task : ℕ
  pub next_comment : ℕ
  pub next_message : ℕ

-- What `listKey` puts into its key.
pub record ListKey : Type 0 where
  pub team_id : ℕ
  pub version : ℕ
  pub status : Text
  pub assignee : ℕ
  pub after_id : ℕ
  pub limit : ℕ

pub record Redis : Type 0 where
  pub versions : ℕ → Option ℕ
  pub lists : ListKey → Option (List Task)

pub record World : Type 0 where
  pub tables : Tables
  pub counters : Counters
  pub redis : Redis
  pub sent : ℕ

-- What the servers, the clock and the random source decide for the statement with a given number.
pub record Env : Type 0 where
  pub fails : ℕ → Bool
  pub time : ℕ → ℕ
  pub group_id : ℕ → Text
  -- the comparison of the column `users.email` under its collation
  pub same_email : Text → Text → Bool

abbrev pub Db : Type 0 → Type 0
Db = Action World Error

-- A rollback undoes the tables, and neither the counters nor redis.
abbrev pub rollback : World → World → World
rollback before after = record after { tables = before.tables }

abbrev pub Transactions : Type 1
Transactions = TxManager World Error rollback

abbrev pub counted : World → World
counted w = record w { sent = suc w.sent }

-- `QueryContext`
abbrev pub query : {A : Type 0} → Env → (Tables → A) → Db A
query env f w = (if env.fails w.sent then err internal else ok (f w.tables), counted w)

abbrev pub or_missing : {A : Type 0} → Option A → Outcome Error A
or_missing none = err not_found
or_missing (some a) = ok a

-- `QueryRowContext(…).Scan(…)`, where `sql.ErrNoRows` becomes `domain.ErrNotFound`.
abbrev pub query_row : {A : Type 0} → Env → (Tables → Option A) → Db A
query_row env f w = (if env.fails w.sent then err internal else or_missing (f w.tables), counted w)

-- `ExecContext`: the effect of a statement that reaches the server.
abbrev pub exec : {A : Type 0} → Env → (World → Outcome Error A × World) → Db A
exec env f w = if env.fails w.sent then (err internal, counted w) else f (counted w)

-- Lookups by key.
abbrev pub find_user : ℕ → Tables → Option User
find_user id t = find? (λ u. u.id == id) t.users

abbrev pub find_team : ℕ → Tables → Option Team
find_team id t = find? (λ u. u.id == id) t.teams

abbrev pub find_task : ℕ → Tables → Option Task
find_task id t = find? (λ u. u.id == id) t.tasks

abbrev pub find_comment : ℕ → Tables → Option TaskComment
find_comment id t = find? (λ u. u.id == id) t.comments

abbrev pub find_member : ℕ → ℕ → Tables → Option Member
find_member team_id user_id t =
    find? (λ m. if m.team_id == team_id then m.user_id == user_id else false) t.members

abbrev pub is_some : {A : Type 0} → Option A → Bool
is_some none = false
is_some (some _) = true

-- A row that was scanned is in the tables.
pub query_row-ok :
    {A : Type 0} (env : Env) (f : Tables → Option A) (w : World) (a : A)
    → (query_row env f w).0 ≡ ok a
    → f w.tables ≡ some a
query_row-ok {A} env f w a h = scanned (env.fails w.sent) (f w.tables) h
  where
    scanned :
        (down : Bool) (o : Option A)
        → (if down then err internal else or_missing o) ≡ ok a
        → o ≡ some a
    scanned true o e = cc
    scanned false none e = cc
    scanned false (some b) e = cc

pub query-ok :
    {A : Type 0} (env : Env) (f : Tables → A) (w : World) (a : A)
    → (query env f w).0 ≡ ok a
    → f w.tables ≡ a
query-ok {A} env f w a h = answered (env.fails w.sent) h
  where
    answered :
        (down : Bool) → (if down then err internal else ok (f w.tables)) ≡ ok a → f w.tables ≡ a
    answered true e = cc
    answered false e = cc
