-- ===== src/Service/Tasks/Invalidation.antt =====
-- `Update` of internal/service/tasks.go keeps the cached lists of every team coherent.
use task_tracker.Base.{
  ℕ, suc, ◌≡◌, ◌≢◌, refl, sym, ap, subst, ◌∙◌, false, Option, none, some, List, [], ◌∷◌, map, take,
  keep, Bool-cases, All, inl, inr, ◌==◌, ==_iff,
}
use task_tracker.Tx.{ok, ◌>>◌, pure, do_tx_then-cases}
use task_tracker.Domain.{Task, TaskFilter, member}
use task_tracker.Store.{Env, World, Tables, Transactions, find_task}
use task_tracker.Store.Undone.{Keeps, then-Keeps}
use task_tracker.Persistence.Tasks
use task_tracker.Persistence.Tasks.{matches, select, assign, touched, completion}
use task_tracker.Persistence.Tasks.Rows.{
  IsOfTeam, keep-assign, find-id, find-assign, assign-team_id,
}
use task_tracker.Persistence.Tasks.Redis.{update-Keeps}
use task_tracker.Service.Authorizer.{require_team_role}
use task_tracker.Service.Authorizer.Access.{require_team_role-keeps_redis}
use task_tracker.Service.Cache
use task_tracker.Service.Cache.Coherence.{
  Coherent, invalidate_team-Coherent, invalidate_other-Coherent,
}
use task_tracker.Service.Tasks.{
  TaskInput, edited, require_assignee_is_member, invalidate, update_body, update,
}
use task_tracker.Service.Tasks.Cached.{Coherent-same, Coherent-select}
use task_tracker.Service.Tasks.Safety.{Edited, require_assignee-keeps_redis, update_body-ok}

team_or_zero : Option Task → ℕ
team_or_zero none = 0
team_or_zero (some t) = t.team_id

-- Every row that has the identifier of the update is the row that a lookup finds.
abbrev pub IsKey : ℕ → Tables → Type 0
IsKey task_id t = All (λ r. r.id ≡ task_id → find_task task_id t ≡ some r) t.tasks

IsKey-IsOfTeam :
    (task_id : ℕ) (t : Tables) (c : Task) (rows : List Task)
    → find_task task_id t ≡ some c
    → All (λ r. r.id ≡ task_id → find_task task_id t ≡ some r) rows
    → All (IsOfTeam task_id c.team_id) rows
unfolding team_or_zero
IsKey-IsOfTeam task_id t c [] found all = tt
IsKey-IsOfTeam task_id t c (r ∷ rows) found (key, all) =
    (λ e. ap team_or_zero (sym (key e) ∙ found), IsKey-IsOfTeam task_id t c rows found all)

module _ (env : Env) where
  -- An update does not move a task to another team.
  updated-team_id :
      (actor_id task_id : ℕ) (input : TaskInput) (w : World) (t : Task) (after : Tables)
      → (e : Edited env actor_id task_id input w t after) → t.team_id ≡ e.current.team_id
  unfolding team_or_zero
  updated-team_id actor_id task_id input w t after e =
      let u = e.updated in
      let new = edited e.current input in
      let stored =
        find-assign (env.time (suc (suc e.before.sent))) new
          (completion (env.time e.before.sent) new.status u.old.status u.old.completed_at) new.id
          e.before.tables.tasks u.old u.was in
      let returned = sym u.returned ∙ ap (find_task new.id) u.tables ∙ stored in
      let its_id = find-id task_id w.tables.tasks e.current e.was in
      let found =
        sym u.was
        ∙ ap (find_task new.id) e.unread
        ∙ ap (λ n. find_task n w.tables) its_id
        ∙ e.was in
      ap team_or_zero returned ∙ assign-team_id _ new _ u.old ∙ ap team_or_zero found

  pub update_body-Keeps :
      (actor_id task_id : ℕ) (input : TaskInput)
      → Keeps (λ w. w.redis) (update_body env actor_id task_id input)
  unfolding update_body Tasks.by_id
  update_body-Keeps actor_id task_id input =
      let redis : World → _ = λ v. v.redis in
      then-Keeps redis (Tasks.by_id env task_id) _ (λ v. refl)
        (λ c.
          then-Keeps redis (require_team_role env actor_id c.team_id member) _
            (require_team_role-keeps_redis env actor_id c.team_id member)
            (λ _.
              then-Keeps redis (require_assignee_is_member env c.team_id input.assignee_id) _
                (require_assignee-keeps_redis env c.team_id input.assignee_id)
                (λ _. update-Keeps env actor_id (edited c input))))

  -- The lists of another team are those of the query before the update.
  select-Edited :
      (actor_id task_id : ℕ) (input : TaskInput) (w : World) (t : Task) (after : Tables)
      → (e : Edited env actor_id task_id input w t after)
      → All (IsOfTeam task_id e.current.team_id) w.tables.tasks
      → (f : TaskFilter) → e.current.team_id ≢ f.team_id
      → select f after ≡ select f w.tables
  unfolding select
  select-Edited actor_id task_id input w t after e of_team f other =
      let u = e.updated in
      let new = edited e.current input in
      let its_id = find-id task_id w.tables.tasks e.current e.was in
      let now = env.time (suc (suc e.before.sent)) in
      let done = completion (env.time e.before.sent) new.status u.old.status u.old.completed_at in
      ap (select f) u.tables
      ∙ ap (λ ts. take f.limit (keep (matches f) (map (assign now new done) ts.tasks))) e.unread
      ∙ ap (take f.limit) (
          keep-assign now new done f w.tables.tasks
            (subst (λ n. All (IsOfTeam n e.current.team_id) w.tables.tasks) (sym its_id) of_team)
            other)

  committed :
      (actor_id task_id : ℕ) (input : TaskInput) (w : World) (team_id : ℕ) (t : Task)
      → (update_body env actor_id task_id input w).0 ≡ ok t
      → env.fails (update_body env actor_id task_id input w).1.sent ≡ false
      → IsKey task_id w.tables
      → Coherent team_id w
      → Coherent team_id
          (Cache.invalidate_team env t.team_id (update_body env actor_id task_id input w).1)
  committed actor_id task_id input w team_id t done up key coherent =
      let body = update_body env actor_id task_id input in
      let redis = update_body-Keeps actor_id task_id input w in
      let e = update_body-ok env actor_id task_id input w t done in
      let same_team = updated-team_id actor_id task_id input w t (body w).1.tables e in
      elim (Bool-cases (t.team_id == team_id)) [
        | inl same ↦
            let its_team = (==_iff t.team_id team_id).0 same in
            subst (λ n. Coherent n (Cache.invalidate_team env t.team_id (body w).1)) its_team
              (invalidate_team-Coherent env t.team_id (body w).1 w up redis
                (subst (λ n. Coherent n w) (sym its_team) coherent))
        | inr differ ↦
            let apart : t.team_id ≢ team_id = λ q. let z = (==_iff t.team_id team_id).1 q in cc in
            invalidate_other-Coherent env t.team_id team_id (body w).1 apart (
              Coherent-select team_id w (body w).1 redis
                (λ f of_team.
                  select-Edited actor_id task_id input w t (body w).1.tables e
                    (IsKey-IsOfTeam task_id w.tables e.current w.tables.tasks e.was key) f
                    (λ q. apart (same_team ∙ q ∙ of_team)))
                coherent)
      ]

  module _ (tx : Transactions) where
    -- If redis answers the command that invalidates the cache after an update of a task, each row
    -- with the identifier of the task is the one a lookup finds, and the cached lists of a team are
    -- coherent before the call, then they are coherent after it, however the call ends. Coherent
    -- means that no list of the team stands under a version to come, and that a list under the
    -- present version is the answer of the query on the present tables.
    pub update-Coherent :
        (actor_id task_id : ℕ) (input : TaskInput) (w : World) (team_id : ℕ)
        → env.fails (update_body env actor_id task_id input w).1.sent ≡ false
        → IsKey task_id w.tables
        → Coherent team_id w
        → Coherent team_id (update env tx actor_id task_id input w).1
    unfolding update
    update-Coherent actor_id task_id input w team_id up key coherent =
        let body = update_body env actor_id task_id input in
        let redis = update_body-Keeps actor_id task_id input w in
        elim (do_tx_then-cases tx body (λ t. invalidate env t.team_id >> pure t) w) [
          | inr (undone, _) ↦
              Coherent-same team_id w (update env tx actor_id task_id input w).1
                (ap (λ v. v.redis) undone ∙ redis) (ap (λ v. v.tables) undone) coherent
          | inl (t, done, e) ↦
              subst (Coherent team_id) (sym (ap (λ p. p.1) e))
                (committed actor_id task_id input w team_id t done up key coherent)
        ]
