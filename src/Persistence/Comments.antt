-- ===== src/Persistence/Comments.antt =====
-- internal/infrastructure/persistence/comment.go over the table `task_comments`.
use task_tracker.Base.{
  ℕ, suc, Bool, true, false, ◌&&◌, not, List, [], ◌∷◌, ◌++◌, map, keep, take, Text, text_eq, ltb,
  ◌==◌, if◌then◌else◌,
}
use task_tracker.Tx.{Outcome, ok, err, ◌>>◌}
use task_tracker.Domain.{Error, TaskComment, CommentFilter, internal}
use task_tracker.Store.{
  Env, Db, World, Tables, query, query_row, exec, find_user, find_task, find_comment, is_some,
}

-- The condition on the cursor, which is there only above zero.
abbrev pub after_cursor : ℕ → ℕ → Bool
after_cursor after_id id = if ltb 0 after_id then ltb after_id id else true

abbrev pub matches : CommentFilter → TaskComment → Bool
matches f c = if c.task_id == f.task_id then after_cursor f.after_id c.id else false

-- The rows that `List` selects.
unfoldable pub select : CommentFilter → Tables → List TaskComment
select f t = take f.limit (keep (matches f) t.comments)

-- `ON UPDATE CURRENT_TIMESTAMP` acts when the row changes.
abbrev pub set_body : ℕ → ℕ → Text → TaskComment → TaskComment
set_body now id body c =
    if c.id == id
    then record c { body = body; updated_at = if text_eq c.body body then c.updated_at else now }
    else c

module _ (env : Env) where
  abbrev insert_comment : ℕ → ℕ → Text → World → Outcome Error ℕ × World
  insert_comment task_id user_id body w =
      let id = w.counters.next_comment in
      let now = env.time w.sent in
      if is_some (find_task task_id w.tables) && is_some (find_user user_id w.tables)
      then (
        ok id,
        record w {
          tables = record w.tables {
            comments =
                w.tables.comments
                ++ record {
                  created_at = now;
                  updated_at = now;
                  body = body;
                  id = id;
                  task_id = task_id;
                  user_id = user_id;
                }
                  ∷ [];
          };
          counters = record w.counters { next_comment = suc id };
        },
      )
      else (err internal, w)

  -- `Create`
  unfoldable pub create : ℕ → ℕ → Text → Db ℕ
  create task_id user_id body = exec env (insert_comment task_id user_id body)

  -- `ByID`
  unfoldable pub by_id : ℕ → Db TaskComment
  by_id id = query_row env (find_comment id)

  -- `List`
  unfoldable pub list : CommentFilter → Db (List TaskComment)
  unfolding select
  list f = query env (select f)

  abbrev pub update_body : ℕ → Text → Db (Unit {0})
  update_body id body = exec env (λ w. (
    ok tt,
    record w {
      tables = record w.tables {
        comments = map (set_body (env.time w.sent) id body) w.tables.comments;
      };
    },
  ))

  -- `Update`
  unfoldable pub update : ℕ → Text → Db TaskComment
  unfolding by_id
  update id body = do update_body id body; by_id id

  -- `Delete`
  unfoldable pub delete : ℕ → Db (Unit {0})
  delete id = exec env (λ w. (
    ok tt,
    record w {
      tables = record w.tables { comments = keep (λ c. not (c.id == id)) w.tables.comments };
    },
  ))
