-- ===== src/Persistence/Tasks/Created.antt =====
-- What `Create` leaves in the tables.
use task_tracker.Base.{
  ℕ, suc, ◌≡◌, ap, ◌∙◌, Option, none, some, [], ◌∷◌, ◌++◌, arith, if◌then◌else◌,
}
use task_tracker.Tx.{ok, ◌>>◌, pure, bind-ok}
use task_tracker.Domain.{Task, change_field_created}
use task_tracker.Store.{Env, Db, World, Tables, counted, exec}
use task_tracker.Persistence.Tasks.{is_done, insert_history, insert_task, create}
use task_tracker.Persistence.Tasks.History.{history_row, with_history, insert_history-ok}

module _ (env : Env) where
  abbrev pub inserted : Task → ℕ → ℕ → Option ℕ → Task
  inserted t id now completed_at = record t {
    id = id;
    created_at = now;
    updated_at = now;
    completed_at = completed_at;
  }

  abbrev with_new_task : Task → Option ℕ → World → World
  with_new_task t completed_at w = record w {
    tables = record w.tables {
      tasks = w.tables.tasks ++ inserted t w.counters.next_task (env.time w.sent) completed_at ∷ [];
    };
    counters = record w.counters { next_task = suc w.counters.next_task };
  }

  insert_task-ok :
      (t : Task) (completed_at : Option ℕ) (w : World) (id : ℕ)
      → (exec env (insert_task env t completed_at) w).0 ≡ ok id
      → (id ≡ w.counters.next_task)
        × ((exec env (insert_task env t completed_at) w).1
            ≡ with_new_task t completed_at (counted w))
  insert_task-ok t completed_at w id h = ground arith

  abbrev pub completed : Task → ℕ → Option ℕ
  completed t now = if is_done t.status then some now else none

  -- The tables with the new task, and the event of its creation.
  abbrev pub with_created : Task → World → Tables
  with_created t w =
      let id = w.counters.next_task in
      with_history env id t.created_by (env.group_id w.sent)
        (history_row env id t.created_by (env.group_id w.sent) (suc (suc w.sent))
            change_field_created none none
          ∷ [])
        (with_new_task t (completed t (env.time w.sent)) (counted w)).tables

  pub create-ok :
      (t : Task) (w : World) (id : ℕ)
      → (create env t w).0 ≡ ok id
      → (id ≡ w.counters.next_task) × ((create env t w).1.tables ≡ with_created t w)
  unfolding create
  create-ok t w id h =
      let insertion = exec env (insert_task env t (completed t (env.time w.sent))) in
      let event : ℕ → Db (Unit {0}) = λ n.
        insert_history env n t.created_by (env.group_id w.sent) change_field_created none none in
      let (n, done, more, e) = bind-ok insertion (λ n. event n >> pure n) w id h in
      let (fresh, stored) = insert_task-ok t (completed t (env.time w.sent)) w n done in
      let (_, recorded, last, e') = bind-ok (event n) (λ _. pure n) (insertion w).1 id more in
      let row =
        insert_history-ok env n t.created_by (env.group_id w.sent) change_field_created none none
          (insertion w).1 recorded in
      let with_event : ℕ → World → Tables = λ m v.
        with_history env m t.created_by (env.group_id w.sent)
          (history_row env m t.created_by (env.group_id w.sent) (suc v.sent) change_field_created
              none none
            ∷ [])
          v.tables in
      (
        cc,
        ap (λ p. p.1.tables) e
            ∙ ap (λ p. p.1.tables) e'
            ∙ ap (λ v. v.tables) row
            ∙ ap (λ m. with_event m (insertion w).1) fresh
            ∙ ap (with_event w.counters.next_task) stored,
      )
