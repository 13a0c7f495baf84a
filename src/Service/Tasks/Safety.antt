-- ===== src/Service/Tasks/Safety.antt =====
-- What a call of internal/service/tasks.go guarantees: who may make it, and what it leaves.
use task_tracker.Base.{
  ℕ, ◌≡◌, refl, sym, ap, ◌∙◌, Option, none, some, Option-cases, subst, ◌⊎◌, inl, inr, arith,
}
use task_tracker.Tx.{ok, ◌>>=◌, ◌>>◌, pure, bind-ok}
use task_tracker.Domain.{Task, member}
use task_tracker.Store.{
  Env, Db, World, Tables, Member, Transactions, counted, find_task, find_member, query_row-ok,
}
use task_tracker.Store.Undone.{Undone, Undone-from, read_then-Goes, tx_then-Goes}
use task_tracker.Persistence.Tasks.Created.{with_created, create-ok}
use task_tracker.Persistence.Teams
use task_tracker.Persistence.Tasks
use task_tracker.Persistence.Tasks.History.{Updated, update-ok}
use task_tracker.Service.Authorizer.{require_team_role}
use task_tracker.Service.Authorizer.Access.{
  MayAct, require_team_role-MayAct, require_team_role-reads,
}
use task_tracker.Service.Cache
use task_tracker.Service.Tasks.{
  TaskInput, edited, require_assignee_is_member, update_body, create_body, new_task, create, update,
  invalidate,
}

-- No assignee, or one with a role in the team.
abbrev pub IsAssignable : Tables → ℕ → Option ℕ → Type 0
IsAssignable t team_id none = Unit {0}
IsAssignable t team_id (some id) = (m : Member) × (find_member team_id id t ≡ some m)

module _ (env : Env) where
  pub require_assignee-ok :
      (team_id : ℕ) (assignee : Option ℕ) (w : World)
      → (require_assignee_is_member env team_id assignee w).0 ≡ ok tt
      → IsAssignable w.tables team_id assignee
  unfolding require_assignee_is_member Teams.member_role
  require_assignee-ok team_id none w h = tt
  require_assignee-ok team_id (some id) w h =
      elim (Option-cases (find_member team_id id w.tables)) [
        | inr found ↦ found
        | inl missing ↦ ground arith
      ]

  pub require_assignee-reads :
      (team_id : ℕ) (assignee : Option ℕ) (w : World)
      → (require_assignee_is_member env team_id assignee w).1.tables ≡ w.tables
  unfolding require_assignee_is_member Teams.member_role
  require_assignee-reads team_id none w = refl
  require_assignee-reads team_id (some id) w = ground arith

  pub require_assignee-keeps_redis :
      (team_id : ℕ) (assignee : Option ℕ) (w : World)
      → (require_assignee_is_member env team_id assignee w).1.redis ≡ w.redis
  unfolding require_assignee_is_member Teams.member_role
  require_assignee-keeps_redis team_id none w = refl
  require_assignee-keeps_redis team_id (some id) w = ground arith

  pub invalidate-reads : (team_id : ℕ) (w : World) → (invalidate env team_id w).1.tables ≡ w.tables
  unfolding Cache.invalidate_team
  invalidate-reads team_id w = ground arith

  -- What a successful update of a task has found and done. `w` is the state before the call.
  pub record Edited (actor_id task_id : ℕ) (input : TaskInput) (w : World) (t : Task)
      (after : Tables) : Type 0 where
    pub current : Task
    pub was : find_task task_id w.tables ≡ some current
    pub may_act : MayAct w.tables actor_id current.team_id member
    pub assignable : IsAssignable w.tables current.team_id input.assignee_id
    pub before : World
    pub unread : before.tables ≡ w.tables
    pub updated : Updated env actor_id (edited current input) before t after

  pub update_body-ok :
      (actor_id task_id : ℕ) (input : TaskInput) (w : World) (t : Task)
      → (update_body env actor_id task_id input w).0 ≡ ok t
      → Edited actor_id task_id input w t (update_body env actor_id task_id input w).1.tables
  unfolding update_body Tasks.by_id
  update_body-ok actor_id task_id input w t h =
      let (current, read, h₁, e₁) =
        bind-ok (Tasks.by_id env task_id)
          (λ c.
            require_team_role env actor_id c.team_id member
            >> (require_assignee_is_member env c.team_id input.assignee_id
                >> Tasks.update env actor_id (edited c input)))
          w t h in
      let role = require_team_role env actor_id current.team_id member in
      let assignee = require_assignee_is_member env current.team_id input.assignee_id in
      let w₂ = (role (counted w)).1 in
      let w₃ = (assignee w₂).1 in
      let (_, passed, h₂, e₂) =
        bind-ok role (λ _. assignee >> Tasks.update env actor_id (edited current input)) (counted w)
          t h₁ in
      let (_, is_member, h₃, e₃) =
        bind-ok assignee (λ _. Tasks.update env actor_id (edited current input)) w₂ t h₂ in
      let same₂ = require_team_role-reads env actor_id current.team_id member (counted w) in
      let same₃ = require_assignee-reads current.team_id input.assignee_id w₂ in
      record {
        current = current;
        was = query_row-ok env (find_task task_id) w current read;
        may_act = require_team_role-MayAct env actor_id current.team_id member (counted w) passed;
        assignable =
            subst (λ ts. IsAssignable ts current.team_id input.assignee_id) same₂
              (require_assignee-ok current.team_id input.assignee_id w₂ is_member);
        before = w₃;
        unread = same₃ ∙ same₂;
        updated =
            subst (Updated env actor_id (edited current input) w₃ t)
              (sym (ap (λ p. p.1.tables) e₁ ∙ ap (λ p. p.1.tables) e₂ ∙ ap (λ p. p.1.tables) e₃))
              (update-ok env actor_id (edited current input) w₃ t h₃);
      }

  -- What a successful creation of a task has found and done.
  pub record Made (actor_id team_id : ℕ) (input : TaskInput) (w : World) (t : Task) (after : Tables)
      : Type 0 where
    pub may_act : MayAct w.tables actor_id team_id member
    pub assignable : IsAssignable w.tables team_id input.assignee_id
    pub before : World
    pub unread : before.tables ≡ w.tables
    pub created : after ≡ with_created env (new_task actor_id team_id input) before
    pub returned : find_task before.counters.next_task after ≡ some t

  pub create_body-ok :
      (t : Task) (w : World) (t' : Task)
      → (create_body env t w).0 ≡ ok t'
      → ((create_body env t w).1.tables ≡ with_created env t w)
        × (find_task w.counters.next_task (create_body env t w).1.tables ≡ some t')
  unfolding create_body Tasks.by_id
  create_body-ok t w t' h =
      let (id, done, more, e) = bind-ok (Tasks.create env t) (Tasks.by_id env) w t' h in
      let (fresh, stored) = create-ok env t w id done in
      let found = query_row-ok env (find_task id) (Tasks.create env t w).1 t' more in
      let same = ap (λ p. p.1.tables) e in
      (
        same ∙ stored,
        ap (find_task w.counters.next_task) same
            ∙ ap (λ n. find_task n (Tasks.create env t w).1.tables) (sym fresh)
            ∙ found,
      )

  module _ (tx : Transactions) where
    open tx use {do_tx}

    -- A creation of a task either returns a task, or leaves every table as it was and returns no
    -- task. When it returns one, the actor is an admin or has a role in the team, the assignee is
    -- none or has a role in the team, and the tables have gained the new row and the event of its
    -- creation; the task returned is the new row.
    pub create-Made :
        (actor_id team_id : ℕ) (input : TaskInput) (w : World)
        → ((t : Task) × ((create env tx actor_id team_id input w).0 ≡ ok t)
            × Made actor_id team_id input w t (create env tx actor_id team_id input w).1.tables)
          ⊎ Undone w (create env tx actor_id team_id input w)
    unfolding create
    create-Made actor_id team_id input w =
        let role = require_team_role env actor_id team_id member in
        let assignee = require_assignee_is_member env team_id input.assignee_id in
        let body = create_body env (new_task actor_id team_id input) in
        let last : Task → Db Task = λ t. invalidate env team_id >> pure t in
        let w₁ = (role w).1 in
        let w₂ = (assignee w₁).1 in
        let same₁ = require_team_role-reads env actor_id team_id member w in
        let same₂ = require_assignee-reads team_id input.assignee_id w₁ in
        elim (read_then-Goes role (λ _. assignee >> (do_tx body >>= last)) w same₁) [
          | inr undone ↦ inr undone
          | inl (_, passed, e₁) ↦
              elim (read_then-Goes assignee (λ _. do_tx body >>= last) w₁ same₂) [
                | inr undone ↦ inr (Undone-from w w₁ _ _ e₁ same₁ undone)
                | inl (_, is_member, e₂) ↦ elim (tx_then-Goes tx body last w₂) [
                  | inr undone ↦ inr (Undone-from w w₂ _ _ (e₁ ∙ e₂) (same₂ ∙ same₁) undone)
                  | inl (t, done, e₃) ↦
                      let (stored, found) =
                        create_body-ok (new_task actor_id team_id input) w₂ t done in
                      let e = e₁ ∙ e₂ ∙ e₃ in
                      let same = ap (λ p. p.1.tables) e ∙ invalidate-reads team_id (body w₂).1 in
                      inl (
                        t,
                        ap (λ p. p.0) e,
                        record {
                          may_act = require_team_role-MayAct env actor_id team_id member w passed;
                          assignable =
                              subst (λ ts. IsAssignable ts team_id input.assignee_id) same₁
                                (require_assignee-ok team_id input.assignee_id w₁ is_member);
                          before = w₂;
                          unread = same₂ ∙ same₁;
                          created = same ∙ stored;
                          returned = ap (find_task w₂.counters.next_task) same ∙ found;
                        },
                      )
                ]
              ]
        ]

    -- An update of a task either returns a task, or leaves every table as it was and returns no
    -- task. When it returns one, the task was there, its assignee is none or has a role in its
    -- team, the actor is an admin or has a role in its team, the row is rewritten, one history row
    -- is appended for each recorded change, all under one group and with the actor, and the task
    -- returned is the one the tables then hold.
    pub update-Edited :
        (actor_id task_id : ℕ) (input : TaskInput) (w : World)
        → ((t : Task) × ((update env tx actor_id task_id input w).0 ≡ ok t)
            × Edited actor_id task_id input w t (update env tx actor_id task_id input w).1.tables)
          ⊎ Undone w (update env tx actor_id task_id input w)
    unfolding update
    update-Edited actor_id task_id input w =
        let body = update_body env actor_id task_id input in
        elim (tx_then-Goes tx body (λ t. invalidate env t.team_id >> pure t) w) [
          | inl (t, done, same) ↦ inl (
            t,
            ap (λ p. p.0) same,
            subst (Edited actor_id task_id input w t)
                (sym (ap (λ p. p.1.tables) same ∙ invalidate-reads t.team_id (body w).1))
                (update_body-ok actor_id task_id input w t done),
          )
          | inr undone ↦ inr undone
        ]
