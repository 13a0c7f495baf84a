-- ===== src/Persistence/Users.antt =====
-- internal/infrastructure/persistence/user.go over the table `users`.
use task_tracker.Base.{
  ℕ, suc, Bool, true, false, Option, List, [], ◌∷◌, ◌++◌, map, Text, find?, if◌then◌else◌,
}
use task_tracker.Tx.{Outcome, ok, err, ◌>>=◌, ◌>>◌, pure}
use task_tracker.Domain.{Error, User, user, global_admin, email_taken}
use task_tracker.Store.{Env, Db, World, Tables, query_row, exec, find_user, is_some}
pub mod Admins

module _ (env : Env) where
  abbrev pub find_email : Text → Tables → Option User
  find_email email t = find? (λ u. env.same_email u.email email) t.users

  abbrev insert_user : User → World → Outcome Error ℕ × World
  insert_user u w =
      let id = w.counters.next_user in
      if is_some (find_email u.email w.tables) then (err email_taken, w) else (
        ok id,
        record w {
          tables = record w.tables {
            users =
                w.tables.users
                ++ record u { id = id; role = user; created_at = env.time w.sent } ∷ [];
          };
          counters = record w.counters { next_user = suc id };
        },
      )

  -- `Create`
  abbrev pub create : User → Db ℕ
  create u = exec env (insert_user u)

  -- `ByID`
  unfoldable pub by_id : ℕ → Db User
  by_id id = query_row env (find_user id)

  -- `ByEmail`
  unfoldable pub by_email : Text → Db User
  by_email email = query_row env (find_email email)

  abbrev pub promote : Text → User → User
  promote email u = if env.same_email u.email email then record u { role = global_admin } else u

  unfoldable pub needs_change : Text → List User → Bool
  needs_change email [] = false
  needs_change email (u ∷ users) =
      let rest = needs_change email users in
      if env.same_email u.email email
      then elim u.role [ user ↦ true | global_admin ↦ rest ]
      else rest

  -- The `UPDATE`, with whether `RowsAffected` is above zero: MySQL counts the rows that change.
  abbrev pub update_role : Text → Db Bool
  update_role email = exec env (λ w. (
    ok (needs_change email w.tables.users),
    record w { tables = record w.tables { users = map (promote email) w.tables.users } },
  ))

  -- `GrantAdmin`: the second look tells an admin from nobody.
  unfoldable pub grant_admin : Text → Db (Unit {0})
  unfolding by_email needs_change
  grant_admin email = do
    affected ← update_role email
    if affected then pure tt else (by_email email >> pure tt)
