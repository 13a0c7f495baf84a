-- ===== src/Service/Comments/Safety.antt =====
-- What a call of internal/service/comments.go guarantees: who may make it, and what it leaves.
use task_tracker.Base.{
  ℕ, suc, ◌≡◌, refl, ap, subst, ◌∙◌, true, not, some, List, map, keep, Text, Bool-cases, ◌⊎◌, inl,
  inr, arith, ◌==◌, ==_iff, if◌then◌else◌,
}
use task_tracker.Tx.{ok, ◌>>=◌, ◌>>◌, pure, bind-ok}
use task_tracker.Domain.{Task, TaskComment, User, member}
use task_tracker.Store.{
  Env, Db, World, Tables, Transactions, counted, find_user, find_task, find_comment, query_row-ok,
}
use task_tracker.Store.Undone.{Undone, Keeps, then-Keeps, tx-Goes}
use task_tracker.Persistence.Tasks
use task_tracker.Persistence.Comments
use task_tracker.Persistence.Comments.{set_body}
use task_tracker.Service.Authorizer.{is_admin, require_admin, require_team_role}
use task_tracker.Service.Authorizer.Access.{
  MayAct, require_admin-ok, require_team_role-MayAct, require_team_role-reads, require_admin-reads,
}
use task_tracker.Service.Comments.{require_can_modify, update_body, delete_body, update, delete}

-- The actor wrote the comment or is a global admin, and may act in the team of its task.
pub record MayModify (t : Tables) (actor_id comment_id : ℕ) : Type 0 where
  pub comment : TaskComment
  pub has_comment : find_comment comment_id t ≡ some comment
  pub task : Task
  pub has_task : find_task comment.task_id t ≡ some task
  pub may_act : MayAct t actor_id task.team_id member
  pub author_or_admin :
      (comment.user_id ≡ actor_id)
      ⊎ ((u : User) × (find_user actor_id t ≡ some u) × (is_admin u ≡ true))

abbrev pub with_comments : (List TaskComment → List TaskComment) → Tables → Tables
with_comments f t = record t { comments = f t.comments }

module _ (env : Env) (actor_id : ℕ) where
  author_or-ok :
      (author : ℕ) (w : World)
      → ((if author == actor_id then pure tt else require_admin env actor_id) w).0 ≡ ok tt
      → (author ≡ actor_id)
        ⊎ ((u : User) × (find_user actor_id w.tables ≡ some u) × (is_admin u ≡ true))
  author_or-ok author w h = elim (Bool-cases (author == actor_id)) [
    | inl same ↦ inl ((==_iff author actor_id).0 same)
    | inr other ↦ inr (require_admin-ok env actor_id w (rw other at h))
  ]

  abbrev own : TaskComment → Db (Unit {0})
  own comment = if comment.user_id == actor_id then pure tt else require_admin env actor_id

  own-reads : (comment : TaskComment) → Keeps (λ v. v.tables) (own comment)
  own-reads comment w = elim (Bool-cases (comment.user_id == actor_id)) [
    | inl same ↦ simp same
    | inr other ↦ simp (other, require_admin-reads env actor_id w)
  ]

  abbrev then_own : TaskComment → Task → Db (Unit {0})
  then_own comment task = require_team_role env actor_id task.team_id member >> own comment

  abbrev then_task : TaskComment → Db (Unit {0})
  then_task comment = Tasks.by_id env comment.task_id >>= then_own comment

  require_can_modify-reads :
      (comment_id : ℕ) → Keeps (λ v. v.tables) (require_can_modify env actor_id comment_id)
  unfolding require_can_modify Tasks.by_id Comments.by_id
  require_can_modify-reads comment_id =
      then-Keeps (λ v. v.tables) (Comments.by_id env comment_id) then_task (λ w. refl)
        (λ comment.
          then-Keeps (λ v. v.tables) (Tasks.by_id env comment.task_id) (then_own comment)
            (λ w. refl)
            (λ task.
              then-Keeps (λ v. v.tables) (require_team_role env actor_id task.team_id member)
                (λ _. own comment) (require_team_role-reads env actor_id task.team_id member)
                (λ _. own-reads comment)))

  require_can_modify-ok :
      (comment_id : ℕ) (w : World)
      → (require_can_modify env actor_id comment_id w).0 ≡ ok tt
      → MayModify w.tables actor_id comment_id
  unfolding require_can_modify Tasks.by_id Comments.by_id
  require_can_modify-ok comment_id w h =
      let (comment, read, h₁, _) = bind-ok (Comments.by_id env comment_id) then_task w tt h in
      let (task, read_task, h₂, _) =
        bind-ok (Tasks.by_id env comment.task_id) (then_own comment) (counted w) tt h₁ in
      let role = require_team_role env actor_id task.team_id member in
      let w₂ = counted (counted w) in
      let (_, passed, h₃, _) = bind-ok role (λ _. own comment) w₂ tt h₂ in
      let same = require_team_role-reads env actor_id task.team_id member w₂ in
      record {
        comment = comment;
        has_comment = query_row-ok env (find_comment comment_id) w comment read;
        task = task;
        has_task = query_row-ok env (find_task comment.task_id) (counted w) task read_task;
        may_act = require_team_role-MayAct env actor_id task.team_id member w₂ passed;
        author_or_admin =
            subst
              (λ ts.
                (comment.user_id ≡ actor_id)
                ⊎ ((u : User) × (find_user actor_id ts ≡ some u) × (is_admin u ≡ true)))
              same (author_or-ok comment.user_id (role w₂).1 h₃);
      }

  statement-ok :
      (comment_id : ℕ) (body : Text) (w : World)
      → (Comments.update_body env comment_id body w).0 ≡ ok tt
      → (Comments.update_body env comment_id body w).1.tables
        ≡ with_comments (map (set_body (env.time (suc w.sent)) comment_id body)) w.tables
  statement-ok comment_id body w h = ground arith

  stored-ok :
      (comment_id : ℕ) (body : Text) (w : World) (c : TaskComment)
      → (Comments.update env comment_id body w).0 ≡ ok c
      → ((Comments.update env comment_id body w).1.tables
          ≡ with_comments (map (set_body (env.time (suc w.sent)) comment_id body)) w.tables)
        × (find_comment comment_id (Comments.update env comment_id body w).1.tables ≡ some c)
  unfolding Comments.update Comments.by_id
  stored-ok comment_id body w c h =
      let statement = Comments.update_body env comment_id body in
      let (_, written, more, e) = bind-ok statement (λ _. Comments.by_id env comment_id) w c h in
      let found = query_row-ok env (find_comment comment_id) (statement w).1 c more in
      let same = ap (λ p. p.1.tables) e in
      (same ∙ statement-ok comment_id body w written, ap (find_comment comment_id) same ∙ found)

  removed-ok :
      (comment_id : ℕ) (w : World)
      → (Comments.delete env comment_id w).0 ≡ ok tt
      → (Comments.delete env comment_id w).1.tables
        ≡ with_comments (keep (λ c. not (c.id == comment_id))) w.tables
  unfolding Comments.delete
  removed-ok comment_id w h = ground arith

  module _ (tx : Transactions) where
    open tx use {do_tx}

    -- An update of a comment either returns a comment, or leaves every table as it was and returns
    -- no comment. When it returns one, the actor wrote the comment or is an admin, and has a role
    -- in the team of its task or is an admin; the rows of this comment have the new body, with a
    -- new time of their update if their body was another, nothing else changes, and the comment
    -- returned is the one the tables then hold.
    pub update-MayModify :
        (comment_id : ℕ) (body : Text) (w : World)
        → ((c : TaskComment) × ((update env tx actor_id comment_id body w).0 ≡ ok c)
            × MayModify w.tables actor_id comment_id
            × ((n : ℕ) × ((update env tx actor_id comment_id body w).1.tables
                  ≡ with_comments (map (set_body (env.time n) comment_id body)) w.tables))
            × (find_comment comment_id (update env tx actor_id comment_id body w).1.tables
                ≡ some c))
          ⊎ Undone w (update env tx actor_id comment_id body w)
    unfolding update update_body
    update-MayModify comment_id body w =
        elim (tx-Goes tx (update_body env actor_id comment_id body) w) [
          | inr undone ↦ inr undone
          | inl (c, done, e) ↦
              let guard = require_can_modify env actor_id comment_id in
              let (_, passed, more, e') =
                bind-ok guard (λ _. Comments.update env comment_id body) w c done in
              let (stored, found) = stored-ok comment_id body (guard w).1 c more in
              let same = ap (λ p. p.1.tables) (e ∙ e') in
              inl (
                c,
                ap (λ p. p.0) e ∙ done,
                require_can_modify-ok comment_id w passed,
                (
                  suc (guard w).1.sent,
                  same
                      ∙ stored
                      ∙ ap
                          (with_comments
                            (map (set_body (env.time (suc (guard w).1.sent)) comment_id body)))
                          (require_can_modify-reads comment_id w),
                ),
                ap (find_comment comment_id) same ∙ found,
              )
        ]

    -- A deletion of a comment either succeeds, or leaves every table as it was and does not
    -- succeed. When it succeeds, the actor wrote the comment or is an admin, and has a role in the
    -- team of its task or is an admin, and exactly the rows with its identifier are gone.
    pub delete-MayModify :
        (comment_id : ℕ) (w : World)
        → (((delete env tx actor_id comment_id w).0 ≡ ok tt)
            × MayModify w.tables actor_id comment_id
            × ((delete env tx actor_id comment_id w).1.tables
                ≡ with_comments (keep (λ c. not (c.id == comment_id))) w.tables))
          ⊎ Undone w (delete env tx actor_id comment_id w)
    unfolding delete delete_body
    delete-MayModify comment_id w = elim (tx-Goes tx (delete_body env actor_id comment_id) w) [
      | inr undone ↦ inr undone
      | inl (_, done, e) ↦
          let guard = require_can_modify env actor_id comment_id in
          let (_, passed, more, e') =
            bind-ok guard (λ _. Comments.delete env comment_id) w tt done in
          inl (
            ap (λ p. p.0) e ∙ done,
            require_can_modify-ok comment_id w passed,
            ap (λ p. p.1.tables) (e ∙ e')
                ∙ removed-ok comment_id (guard w).1 more
                ∙ ap (with_comments (keep (λ c. not (c.id == comment_id))))
                    (require_can_modify-reads comment_id w),
          )
    ]
