-- ===== src/Service/Teams.antt =====
-- internal/service/teams.go.
pub mod Safety
pub mod Founding
use task_tracker.Base.{ℕ, List, Text, ascii, decimal, ◌++◌}
use task_tracker.Tx.{Outcome, ok, err, ◌>>=◌, ◌>>◌, pure, raise, TxManager}
use task_tracker.Domain.{TeamRole, member, admin, owner, TeamMembership}
use task_tracker.Outbox.{Message}
use task_tracker.Store.{Env, Db, Transactions}
use task_tracker.Persistence.Users
use task_tracker.Persistence.Teams
use task_tracker.Persistence.Messages
use task_tracker.Service.Authorizer.{require_team_role}

-- The text of the invitation.
abbrev pub invitation : Text → ℕ → Message
invitation email team_id = record {
  recipient = email;
  subject = ascii "You have been invited to a team";
  body =
      ascii "You have been added to team "
      ++ (decimal team_id ++ ascii ". Open Task Tracker to get started.");
}

module _ (env : Env) (tx : Transactions) where
  -- `Create`: the team and its owner, in one transaction.
  pub create : ℕ → Text → Db TeamMembership
  create actor_id name = do
    team_id ←
        tx.do_tx
          (do id ← Teams.create env name actor_id; Teams.add_member env id actor_id owner; pure id)
    pure (record { name = name; role = owner; id = team_id })

  -- `List`
  abbrev pub list : ℕ → Db (List TeamMembership)
  list actor_id = Teams.list_by_user env actor_id

  -- `Invite`: the membership and the mail, in one transaction.
  pub invite : ℕ → ℕ → Text → Db (Unit {0})
  invite actor_id team_id email = do
    require_team_role env actor_id team_id admin
    invitee ← Users.by_email env email
    tx.do_tx (do
      Teams.add_member env team_id invitee.id member
      Messages.enqueue env (invitation email team_id))
