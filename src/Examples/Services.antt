-- ===== src/Examples/Services.antt =====
-- The theorems on the services at a team of two users with one task.
use task_tracker.Base.{
  ℕ, ◌≡◌, refl, true, false, not, none, some, [], ◌∷◌, map, keep, ascii, text_eq, ◌↔◌, inr, ◌⊎◌,
  ◌==◌,
}
use task_tracker.Tx.{ok, err}
use task_tracker.Domain.{
  Task, done, TaskComment, member, admin, owner, at_least, team_role_rank, invalid_credentials,
}
use task_tracker.Store.{Env, Tables, rollback, find_comment}
use task_tracker.Store.Undone.{Undone}
use task_tracker.Persistence.Users.{by_id}
use task_tracker.Service.Auth.{Credentials, login}
use task_tracker.Service.Auth.Login.{login-invalid_credentials}
use task_tracker.Persistence.Teams.{member_role}
use task_tracker.Persistence.Comments.{set_body}
use task_tracker.Persistence.Tasks.{select, diff, list as list_rows}
use task_tracker.Persistence.Tasks.Diff.{diff-nil_iff}
use task_tracker.Service.Authorizer.{require_team_role}
use task_tracker.Service.Authorizer.Access.{
  MayAct, require_team_role-MayAct, MayAct-require_team_role,
}
use task_tracker.Service.Cache.{list_key, get_list, set_list}
use task_tracker.Service.Cache.Keys.{IsRequest}
use task_tracker.Service.Cache.Coherence.{Coherent}
use task_tracker.Service.Tasks
use task_tracker.Service.Tasks.{TaskInput, update_body}
use task_tracker.Service.Tasks.Safety.{Edited, update-Edited}
use task_tracker.Service.Tasks.Cached.{list-Coherent}
use task_tracker.Service.Tasks.Invalidation.{update-Coherent}
use task_tracker.Service.Teams
use task_tracker.Service.Teams.Safety.{with_member}
use task_tracker.Service.Teams.Founding.{with_team, create-owner}
use task_tracker.Service.Comments
use task_tracker.Service.Comments.Safety.{
  MayModify, with_comments, update-MayModify, delete-MayModify,
}
use task_tracker.Examples.World.{env, person, task, tables, world, input, filter}
use task_tracker.Examples.Data.{committing}

update-Edited_example :
    ((t : Task) × ((Tasks.update env (committing rollback) 2 5 input world).0 ≡ ok t)
      × Edited env 2 5 input world t
          (Tasks.update env (committing rollback) 2 5 input world).1.tables)
    ⊎ Undone world (Tasks.update env (committing rollback) 2 5 input world)
update-Edited_example = update-Edited env (committing rollback) 2 5 input world

create-owner_example :
    ((id : ℕ) × ((Teams.create env (committing rollback) 3 (ascii "new") world).0
        ≡ ok (record { name = ascii "new"; role = owner; id = id }))
      × (id ≡ 2)
      × ((Teams.create env (committing rollback) 3 (ascii "new") world).1.tables
          ≡ with_member id 3 owner (with_team (env.time 1) (ascii "new") id 3 tables)))
    ⊎ Undone world (Teams.create env (committing rollback) 3 (ascii "new") world)
create-owner_example = create-owner env (committing rollback) 3 (ascii "new") world

update-MayModify_example :
    ((c : TaskComment) × ((Comments.update env (committing rollback) 2 9 (ascii "d") world).0
        ≡ ok c)
      × MayModify tables 2 9
      × ((n : ℕ) × ((Comments.update env (committing rollback) 2 9 (ascii "d") world).1.tables
            ≡ with_comments (map (set_body (env.time n) 9 (ascii "d"))) tables))
      × (find_comment 9 (Comments.update env (committing rollback) 2 9 (ascii "d") world).1.tables
          ≡ some c))
    ⊎ Undone world (Comments.update env (committing rollback) 2 9 (ascii "d") world)
update-MayModify_example = update-MayModify env 2 (committing rollback) 9 (ascii "d") world

delete-MayModify_example :
    (((Comments.delete env (committing rollback) 2 9 world).0 ≡ ok tt)
      × MayModify tables 2 9
      × ((Comments.delete env (committing rollback) 2 9 world).1.tables
          ≡ with_comments (keep (λ c. not (c.id == 9))) tables))
    ⊎ Undone world (Comments.delete env (committing rollback) 2 9 world)
delete-MayModify_example = delete-MayModify env 2 (committing rollback) 9 world

empty_cache : Coherent 1 world
empty_cache f v tasks of_team rf ahead stored = cc

todo-IsRequest : IsRequest filter
todo-IsRequest = record { status = λ e. cc; assignee = λ e. cc }

list-Coherent_example :
    MayAct tables 2 1 member
    × (task ∷ [] ≡ select filter tables)
    × Coherent 1 (Tasks.list env 2 filter world).1
    × ((Tasks.list env 2 filter world).1.tables ≡ tables)
unfolding Tasks.list require_team_role by_id member_role list_rows get_list set_list list_key
    at_least team_role_rank
list-Coherent_example = list-Coherent env 2 filter world (task ∷ []) todo-IsRequest empty_cache refl

update-Coherent_example : Coherent 1 (Tasks.update env (committing rollback) 2 5 input world).1
update-Coherent_example =
    update-Coherent env (committing rollback) 2 5 input world 1 refl ((λ e. refl), tt) empty_cache

abbrev edited_task : Task
edited_task = record task { assignee_id = none; status = done }

diff-nil_iff_example : (diff task edited_task ≡ []) ↔ (
    (task.title ≡ edited_task.title)
    × (task.description ≡ edited_task.description)
    × (task.status ≡ edited_task.status)
    × (task.assignee_id ≡ edited_task.assignee_id))
diff-nil_iff_example = diff-nil_iff task edited_task

abbrev two_tasks : Tables
two_tasks = record tables { tasks = task ∷ record task { id = 8 } ∷ [] }

require_team_role-MayAct_example : MayAct tables 1 1 admin
unfolding require_team_role by_id member_role at_least team_role_rank
require_team_role-MayAct_example = require_team_role-MayAct env 1 1 admin world refl

MayAct-require_team_role_example : (require_team_role env 1 1 admin world).0 ≡ ok tt
unfolding at_least team_role_rank
MayAct-require_team_role_example =
    MayAct-require_team_role env 1 1 admin world (λ n. refl)
      (
        person 1 (ascii "a"),
        refl,
        inr (record { team_id = 1; user_id = 1; role = owner }, refl, refl),
      )

abbrev cred : Credentials
cred = record {
  hash = λ p. some p;
  matches = λ h p. text_eq h p;
  issue = λ id. some (ascii "token");
}

-- One account, whose hash is the empty text.
login-invalid_credentials_example :
    (login env (record cred { matches = λ h p. false }) (ascii "a") (ascii "pw") world).0
    ≡ err invalid_credentials
login-invalid_credentials_example =
    login-invalid_credentials env (record cred { matches = λ h p. false }) (ascii "a") (ascii "pw")
      world refl (λ u found. refl)

abbrev open_cred : Credentials
open_cred = record cred { matches = λ h p. true }

abbrev any_email : Env
any_email = record env { same_email = λ a b. true }
