-- ===== src/Examples/Reports.antt =====
-- The theorems on the reports, for an admin.
use task_tracker.Base.{
  ℕ, ◌≤◌, refl, [], ◌∷◌, length, ◌≡◌, All, In, count, min, take, ascii, inl, inr, arith, some,
}
use task_tracker.Domain.{Task, global_admin, OrphanAssignee}
use task_tracker.Store.{World, Tables}
use task_tracker.Persistence.Users.{by_id}
use task_tracker.Persistence.Analytics.{orphans, select_orphans, orphan_assignees, ranked, top_of}
use task_tracker.Persistence.Analytics.Orphans.{IsOrphan, OfOrphan, orphan_assignees-In}
use task_tracker.Persistence.Analytics.Creators.{IsRanked, IsListed, top_of-IsRanked}
use task_tracker.Persistence.Analytics.Tally.{creators, tally}
use task_tracker.Persistence.Analytics.Report.{Shows}
use task_tracker.Service.Authorizer.{require_admin}
use task_tracker.Service.Analytics
use task_tracker.Service.Analytics.Access.{IsAdmin, orphan_assignees-IsAdmin}
use task_tracker.Examples.World.{env, world, tables, task, person}

-- User 1 is an admin, and task 7 belongs to user 3, who has no role in team 1.
abbrev stray : Task
stray = record task { id = 7; assignee_id = some 3 }

abbrev audited : Tables
audited = record tables {
  users = record (person 1 (ascii "a")) { role = global_admin } ∷ [];
  tasks = task ∷ stray ∷ [];
}

abbrev office : World
office = record world { tables = audited }

abbrev listed : OrphanAssignee
listed = record { title = ascii "t"; task_id = 7; team_id = 1; assignee_id = 3 }

abbrev long_ago : ℕ → ℕ
long_ago n = 0

stray-IsOrphan : IsOrphan audited 0 stray listed
stray-IsOrphan = record {
  assignee = refl;
  no_role = refl;
  above = omega arith;
  same_task = refl;
  same_team = refl;
  same_title = refl;
}

orphan_assignees-In_example : In listed (listed ∷ [])
unfolding orphan_assignees select_orphans orphans
orphan_assignees-In_example =
    orphan_assignees-In env 0 10 office (listed ∷ []) refl (omega arith) stray listed
      (inr (inl refl)) stray-IsOrphan

top_of-IsRanked_example :
    let rows = ranked 0 audited 1 in
    IsRanked rows
    × (count 1 (creators rows) ≡ min 1 (tally 0 audited 1 1))
    × All (λ c. c.cnt ≡ tally 0 audited 1 c.created_by) rows
    × All (Shows audited 1 1 (take 3 rows)) (top_of 0 audited 1)
    × IsListed audited 1 (take 3 rows) (top_of 0 audited 1) 0
    × (length (top_of 0 audited 1) ≤ 3)
top_of-IsRanked_example = top_of-IsRanked 0 audited 1 1 0

orphan_assignees-IsAdmin_example :
    IsAdmin audited 1 × All (OfOrphan audited 0 audited.tasks) (listed ∷ [])
unfolding Analytics.orphan_assignees require_admin by_id orphan_assignees select_orphans orphans
orphan_assignees-IsAdmin_example = orphan_assignees-IsAdmin env 1 0 10 office (listed ∷ []) refl
