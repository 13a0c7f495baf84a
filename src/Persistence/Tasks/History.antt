-- ===== src/Persistence/Tasks/History.antt =====
-- What `Update` and `Create` leave in the tables.
use task_tracker.Base.{
  ℕ, suc, ◌≡◌, sym, ap, ◌∙◌, Option, some, List, [], ◌∷◌, ◌++◌, map, append-nil, append_assoc, Text,
  arith,
}
use task_tracker.Tx.{ok, ◌>>=◌, ◌>>◌, bind-ok}
use task_tracker.Domain.{Task}
use task_tracker.Store.{
  Env, Db, World, Tables, HistoryRow, counted, query, query_row, find_task, query_row-ok,
}
use task_tracker.Persistence.Tasks.{
  Change, diff, completion, insert_history, record_changes, assign, update_row, or_internal, update,
}

module _ (env : Env) (task_id actor : ℕ) (group_id : Text) where
  abbrev pub history_row : ℕ → Text → Option Text → Option Text → HistoryRow
  history_row n field old_value new_value = record {
    task_id = task_id;
    changed_by = actor;
    change_group_id = group_id;
    field = field;
    old_value = old_value;
    new_value = new_value;
    changed_at = env.time n;
  }

  -- The rows of these changes, when the first of them is written by the statement `n`.
  abbrev pub history_rows : ℕ → List Change → List HistoryRow
  history_rows n [] = []
  history_rows n (ch ∷ changes) =
      history_row n ch.field (some ch.old_value) (some ch.new_value) ∷ history_rows (suc n) changes

  abbrev pub with_history : List HistoryRow → Tables → Tables
  with_history rows t = record t { history = t.history ++ rows }

  pub insert_history-ok :
      (field : Text) (old_value new_value : Option Text) (w : World)
      → (insert_history env task_id actor group_id field old_value new_value w).0 ≡ ok tt
      → (insert_history env task_id actor group_id field old_value new_value w).1
        ≡ record (counted w) {
          tables = with_history (history_row (suc w.sent) field old_value new_value ∷ []) w.tables;
        }
  insert_history-ok field old_value new_value w h = ground arith

  pub record_changes-ok :
      (changes : List Change) (w : World)
      → (record_changes env task_id actor group_id changes w).0 ≡ ok tt
      → (record_changes env task_id actor group_id changes w).1.tables
        ≡ with_history (history_rows (suc w.sent) changes) w.tables
  unfolding record_changes
  record_changes-ok [] w h = simp append-nil
  record_changes-ok (ch ∷ changes) w h =
      let first =
        insert_history env task_id actor group_id ch.field (some ch.old_value)
          (some ch.new_value) in
      let (done, written, more, rest) =
        bind-ok first (λ _. record_changes env task_id actor group_id changes) w tt h in
      let stored = insert_history-ok ch.field (some ch.old_value) (some ch.new_value) w written in
      let later = record_changes-ok changes (first w).1 more in
      ap (λ p. p.1.tables) rest ∙ later ∙ simp (stored, append_assoc)

module _ (env : Env) where
  abbrev pub with_task : ℕ → Task → Option ℕ → Tables → Tables
  with_task now t completed_at tables = record tables {
    tasks = map (assign now t completed_at) tables.tasks;
  }

  update_row-ok :
      (t : Task) (completed_at : Option ℕ) (w : World)
      → (update_row env t completed_at w).0 ≡ ok tt
      → (update_row env t completed_at w).1
        ≡ record (counted w) { tables = with_task (env.time (suc w.sent)) t completed_at w.tables }
  update_row-ok t completed_at w h = ground arith

  abbrev read_again : ℕ → Db Task
  read_again id = query env (find_task id) >>= λ found. or_internal found

  read_again-ok :
      (id : ℕ) (w : World) (t : Task)
      → (read_again id w).0 ≡ ok t
      → (find_task id w.tables ≡ some t) × ((read_again id w).1.tables ≡ w.tables)
  read_again-ok id w t h = ground arith

  -- The statements that follow the first of `Update`.
  abbrev rewrite : ℕ → Text → Task → Option ℕ → List Change → Db Task
  rewrite actor group_id t completed_at changes =
      update_row env t completed_at
      >> (record_changes env t.id actor group_id changes >> read_again t.id)

  abbrev rewritten : ℕ → Text → Task → Option ℕ → List Change → World → Tables
  rewritten actor group_id t completed_at changes w =
      with_history env t.id actor group_id
        (history_rows env t.id actor group_id (suc (suc w.sent)) changes)
        (with_task (env.time (suc w.sent)) t completed_at w.tables)

  rewrite-ok :
      (actor : ℕ) (group_id : Text) (t : Task) (completed_at : Option ℕ) (changes : List Change)
      (w : World) (t' : Task)
      → (rewrite actor group_id t completed_at changes w).0 ≡ ok t'
      → ((rewrite actor group_id t completed_at changes w).1.tables
          ≡ rewritten actor group_id t completed_at changes w)
        × (find_task t.id (rewritten actor group_id t completed_at changes w) ≡ some t')
  rewrite-ok actor group_id t completed_at changes w t' h =
      let write = update_row env t completed_at in
      let record_all = record_changes env t.id actor group_id changes in
      let w₁ = (write w).1 in
      let w₂ = (record_all w₁).1 in
      let (_, wrote, h₁, e₁) = bind-ok write (λ _. record_all >> read_again t.id) w t' h in
      let (_, recorded, h₂, e₂) = bind-ok record_all (λ _. read_again t.id) w₁ t' h₁ in
      let (found, same) = read_again-ok t.id w₂ t' h₂ in
      let stored =
        record_changes-ok env t.id actor group_id changes w₁ recorded
        ∙ ap
            (λ v.
              with_history env t.id actor group_id
                (history_rows env t.id actor group_id (suc v.sent) changes) v.tables)
            (update_row-ok t completed_at w wrote) in
      (
        ap (λ p. p.1.tables) e₁ ∙ ap (λ p. p.1.tables) e₂ ∙ same ∙ stored,
        ap (find_task t.id) (sym stored) ∙ found,
      )

  -- What a successful `Update` of a task has done: the row is rewritten, and one history row for each
  -- field that differs is appended, all of one group.
  pub record Updated (actor : ℕ) (t : Task) (w : World) (t' : Task) (after : Tables) : Type 0 where
    pub old : Task
    pub was : find_task t.id w.tables ≡ some old
    pub tables :
        after
        ≡ with_history env t.id actor
            (env.group_id w.sent)
            (history_rows env t.id actor
              (env.group_id w.sent)
              (suc (suc (suc w.sent)))
              (diff old t))
            (with_task
              (env.time (suc (suc w.sent)))
              t
              (completion (env.time w.sent) t.status old.status old.completed_at)
              w.tables)
    pub returned : find_task t.id after ≡ some t'

  pub update-ok :
      (actor : ℕ) (t : Task) (w : World) (t' : Task)
      → (update env actor t w).0 ≡ ok t'
      → Updated actor t w t' (update env actor t w).1.tables
  unfolding update
  update-ok actor t w t' h =
      let now = env.time w.sent in
      let group_id = env.group_id w.sent in
      let (old, read, rest, e) =
        bind-ok (query_row env (find_task t.id))
          (λ o.
            rewrite actor group_id t (completion now t.status o.status o.completed_at) (diff o t))
          w t' h in
      let (tables, returned) =
        rewrite-ok actor group_id t (completion now t.status old.status old.completed_at)
          (diff old t) (counted w) t' rest in
      let after = ap (λ p. p.1.tables) e ∙ tables in
      record {
        old = old;
        was = query_row-ok env (find_task t.id) w old read;
        tables = after;
        returned = ap (find_task t.id) after ∙ returned;
      }
