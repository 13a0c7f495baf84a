-- ===== src/Persistence/Tasks/Redis.antt =====
-- The statements on tasks do not reach redis.
use task_tracker.Base.{ℕ, refl, Option, none, some, List, [], ◌∷◌, Text, arith}
use task_tracker.Domain.{Task}
use task_tracker.Store.{Env, World, query, query_row, find_task}
use task_tracker.Store.Undone.{Keeps, then-Keeps}
use task_tracker.Persistence.Tasks.{
  Change, diff, completion, insert_history, record_changes, update_row, or_internal, create, update,
}

module _ (env : Env) where
  insert_history-Keeps :
      (task_id actor : ℕ) (group_id field : Text) (old_value new_value : Option Text)
      → Keeps (λ w. w.redis) (insert_history env task_id actor group_id field old_value new_value)
  insert_history-Keeps task_id actor group_id field old_value new_value w = ground arith

  update_row-Keeps :
      (t : Task) (completed_at : Option ℕ) → Keeps (λ w. w.redis) (update_row env t completed_at)
  update_row-Keeps t completed_at w = ground arith

  record_changes-Keeps :
      (task_id actor : ℕ) (group_id : Text) (changes : List Change)
      → Keeps (λ w. w.redis) (record_changes env task_id actor group_id changes)
  unfolding record_changes
  record_changes-Keeps task_id actor group_id [] = λ w. refl
  record_changes-Keeps task_id actor group_id (ch ∷ changes) =
      then-Keeps (λ w. w.redis) _ (λ _. record_changes env task_id actor group_id changes)
        (insert_history-Keeps task_id actor group_id ch.field (some ch.old_value)
          (some ch.new_value))
        (λ _. record_changes-Keeps task_id actor group_id changes)

  or_internal-Keeps : (o : Option Task) → Keeps (λ w. w.redis) (or_internal o)
  or_internal-Keeps none w = refl
  or_internal-Keeps (some t) w = refl

  pub update-Keeps : (actor : ℕ) (t : Task) → Keeps (λ w. w.redis) (update env actor t)
  unfolding update
  update-Keeps actor t w =
      let redis : World → _ = λ v. v.redis in
      let now = env.time w.sent in
      let group_id = env.group_id w.sent in
      then-Keeps redis (query_row env (find_task t.id)) _ (λ v. refl)
        (λ old.
          then-Keeps redis (update_row env t (completion now t.status old.status old.completed_at))
            _ (update_row-Keeps t (completion now t.status old.status old.completed_at))
            (λ _.
              then-Keeps redis (record_changes env t.id actor group_id (diff old t)) _
                (record_changes-Keeps t.id actor group_id (diff old t))
                (λ _.
                  then-Keeps redis (query env (find_task t.id)) _ (λ v. refl) or_internal-Keeps)))
        w

  pub create-Keeps : (t : Task) → Keeps (λ w. w.redis) (create env t)
  unfolding create
  create-Keeps t w = ground arith
