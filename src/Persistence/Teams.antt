-- ===== src/Persistence/Teams.antt =====
-- internal/infrastructure/persistence/team.go over the tables `teams` and `team_members`.
use task_tracker.Base.{ℕ, suc, ◌&&◌, List, [], ◌∷◌, ◌++◌, keep, Text, ◌==◌, if◌then◌else◌}
use mathlib.Core.Option
use task_tracker.Tx.{Outcome, ok, err}
use task_tracker.Domain.{Error, Team, TeamRole, TeamMembership, not_found, already_member}
use task_tracker.Store.{
  Env, Db, World, Member, query, query_row, exec, find_user, find_team, find_member, is_some,
}

abbrev to_membership : List Member → Team → List TeamMembership
to_membership [] t = []
to_membership (m ∷ ms) t =
    let rest = to_membership ms t in
    if m.team_id == t.id then record { name = t.name; role = m.role; id = t.id } ∷ rest else rest

abbrev memberships : List Member → List Team → List TeamMembership
memberships ms [] = []
memberships ms (t ∷ teams) = to_membership ms t ++ memberships ms teams

module _ (env : Env) where
  abbrev insert_team : Text → ℕ → World → Outcome Error ℕ × World
  insert_team name creator w =
      let id = w.counters.next_team in
      if is_some (find_user creator w.tables)
      then (
        ok id,
        record w {
          tables = record w.tables {
            teams =
                w.tables.teams
                ++ record {
                  created_at = env.time w.sent;
                  name = name;
                  id = id;
                  created_by = creator;
                }
                  ∷ [];
          };
          counters = record w.counters { next_team = suc id };
        },
      )
      else (err not_found, w)

  -- `Create`; a missing creator violates a foreign key.
  unfoldable pub create : Text → ℕ → Db ℕ
  create name creator = exec env (insert_team name creator)

  -- `ListByUser`: the join, in the order of the teams' keys.
  abbrev pub list_by_user : ℕ → Db (List TeamMembership)
  list_by_user user_id =
      query env (λ t. memberships (keep (λ m. m.user_id == user_id) t.members) t.teams)

  -- `MemberRole`
  unfoldable pub member_role : ℕ → ℕ → Db TeamRole
  member_role team_id user_id =
      query_row env (λ t. Option.map (λ m. m.role) (find_member team_id user_id t))

  abbrev insert_member : ℕ → ℕ → TeamRole → World → Outcome Error (Unit {0}) × World
  insert_member team_id user_id role w =
      if is_some (find_member team_id user_id w.tables)
      then (err already_member, w)
      else if is_some (find_team team_id w.tables) && is_some (find_user user_id w.tables)
      then (
        ok tt,
        record w {
          tables = record w.tables {
            members =
                w.tables.members
                ++ record { team_id = team_id; user_id = user_id; role = role } ∷ [];
          };
        },
      )
      else (err not_found, w)

  -- `AddMember`: a second row of a pair violates the key, a missing team or user a foreign key.
  unfoldable pub add_member : ℕ → ℕ → TeamRole → Db (Unit {0})
  add_member team_id user_id role = exec env (insert_member team_id user_id role)
