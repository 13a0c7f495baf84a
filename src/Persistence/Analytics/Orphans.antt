-- ===== src/Persistence/Analytics/Orphans.antt =====
-- What `OrphanAssignees` lists.
use task_tracker.Base.{
  ℕ, zero, suc, ◌<◌, ◌≡◌, refl, sym, ap, subst, ◌∙◌, Bool, true, false, Option, none, some, List,
  [], ◌∷◌, take, length, All, All-take, In, ltb, ltb→lt, lt→ltb, Option-cases, inl, inr, arith,
  if◌then◌else◌,
}
use task_tracker.Domain.{Task, OrphanAssignee}
use task_tracker.Tx.{ok}
use task_tracker.Store.{Env, World, Tables, find_member, is_some, query-ok}
use task_tracker.Persistence.Analytics.{
  orphan_as, add_orphan, orphans, select_orphans, orphan_assignees,
}

-- The task has an assignee without a role in its team, and stands above the cursor.
pub record IsOrphan (t : Tables) (after_id : ℕ) (task : Task) (o : OrphanAssignee) : Type 0 where
  pub assignee : task.assignee_id ≡ some o.assignee_id
  pub no_role : find_member task.team_id o.assignee_id t ≡ none
  pub above : after_id < task.id
  pub same_task : o.task_id ≡ task.id
  pub same_team : o.team_id ≡ task.team_id
  pub same_title : o.title ≡ task.title

-- The row is that of such a task.
abbrev pub OfOrphan : Tables → ℕ → List Task → OrphanAssignee → Type 0
OfOrphan t after_id tasks o = (task : Task) × In task tasks × IsOrphan t after_id task o

orphan_as-IsOrphan :
    (t : Tables) (after_id : ℕ) (task : Task) (assignee : Option ℕ) (o : OrphanAssignee)
    → task.assignee_id ≡ assignee
    → orphan_as t task assignee ≡ some o
    → after_id < task.id
    → IsOrphan t after_id task o
orphan_as-IsOrphan t after_id task none o assigned h above = cc
orphan_as-IsOrphan t after_id task (some a) o assigned h above =
    elim (Option-cases (find_member task.team_id a t)) [
      | inr (m, found) ↦ let e : none ≡ some o = rw found at h in cc
      | inl missing ↦
          let listed : OrphanAssignee = record {
            title = task.title;
            task_id = task.id;
            team_id = task.team_id;
            assignee_id = a;
          } in
          let e' : some listed ≡ some o = rw missing at h in
          let e : listed ≡ o = cc in
          subst (IsOrphan t after_id task) e (record {
            assignee = assigned;
            no_role = missing;
            above = above;
            same_task = refl;
            same_team = refl;
            same_title = refl;
          })
    ]

IsOrphan-orphan_as :
    (t : Tables) (after_id : ℕ) (task : Task) (o : OrphanAssignee)
    → IsOrphan t after_id task o
    → orphan_as t task task.assignee_id ≡ some o
IsOrphan-orphan_as t after_id task o is =
    let listed : OrphanAssignee = record {
      title = task.title;
      task_id = task.id;
      team_id = task.team_id;
      assignee_id = o.assignee_id;
    } in
    let e : listed ≡ o = λ i. record {
      title = sym is.same_title i;
      task_id = sym is.same_task i;
      team_id = sym is.same_team i;
      assignee_id = o.assignee_id;
    } in
    ap (orphan_as t task) is.assignee
    ∙ ap (λ m. if is_some m then none else some listed) is.no_role
    ∙ ap some e

orphans-OfOrphan :
    (t : Tables) (after_id : ℕ) (tasks all : List Task)
    → ((task : Task) → In task tasks → In task all)
    → All (OfOrphan t after_id all) (orphans t after_id tasks)
unfolding orphans
orphans-OfOrphan t after_id [] all within = tt
orphans-OfOrphan t after_id (task ∷ tasks) all within =
    added (ltb after_id task.id) (orphan_as t task task.assignee_id) refl refl
      (orphans-OfOrphan t after_id tasks all (λ x m. within x (inr m)))
  where
    added :
        (above : Bool) (o : Option OrphanAssignee)
        → ltb after_id task.id ≡ above
        → orphan_as t task task.assignee_id ≡ o
        → All (OfOrphan t after_id all) (orphans t after_id tasks)
        → All (OfOrphan t after_id all) (add_orphan above o (orphans t after_id tasks))
    added above none e h rest = rest
    added true (some o) e h rest = (
      (
        task,
        within task (inl refl),
        orphan_as-IsOrphan t after_id task task.assignee_id o refl h (ltb→lt after_id task.id e),
      ),
      rest,
    )
    added false (some o) e h rest = rest

orphans_complete :
    (t : Tables) (after_id : ℕ) (tasks : List Task) (task : Task) (o : OrphanAssignee)
    → In task tasks
    → IsOrphan t after_id task o
    → In o (orphans t after_id tasks)
unfolding orphans
orphans_complete t after_id (x ∷ tasks) task o (inl same) is =
    let e =
      IsOrphan-orphan_as t after_id x o (subst (λ y. IsOrphan t after_id y o) (sym same) is) in
    let above : ltb after_id x.id ≡ true =
      lt→ltb after_id x.id (subst (λ (y : Task). after_id < y.id) (sym same) is.above) in
    rw (above, e) (inl refl)
orphans_complete t after_id (x ∷ tasks) task o (inr later) is =
    kept (ltb after_id x.id) (orphan_as t x x.assignee_id)
      (orphans_complete t after_id tasks task o later is)
  where
    kept :
        (above : Bool) (p : Option OrphanAssignee)
        → In o (orphans t after_id tasks)
        → In o (add_orphan above p (orphans t after_id tasks))
    kept above none m = m
    kept true (some p) m = inr m
    kept false (some p) m = m
orphans_complete t after_id [] task o m is = absurd m

take-all : (n : ℕ) (os : List OrphanAssignee) → length (take n os) < n → take n os ≡ os
take-all zero os short = absurd (omega arith)
take-all (suc n) [] short = refl
take-all (suc n) (o ∷ os) short = ap (λ rest. o ∷ rest) (take-all n os (omega arith))

module _ (env : Env) where
  pub orphan_assignees-OfOrphan :
      (after_id limit : ℕ) (w : World) (os : List OrphanAssignee)
      → (orphan_assignees env after_id limit w).0 ≡ ok os
      → All (OfOrphan w.tables after_id w.tables.tasks) os
  unfolding orphan_assignees select_orphans
  orphan_assignees-OfOrphan after_id limit w os h =
      subst (All (OfOrphan w.tables after_id w.tables.tasks))
        (query-ok env (select_orphans after_id limit) w os h)
        (All-take (OfOrphan w.tables after_id w.tables.tasks) limit
          (orphans w.tables after_id w.tables.tasks)
          (orphans-OfOrphan w.tables after_id w.tables.tasks w.tables.tasks (λ x m. m)))

  -- If the query for orphan assignees returns fewer rows than its limit, then each task of the
  -- tables above the cursor whose assignee has no role in its team has its row among them.
  pub orphan_assignees-In :
      (after_id limit : ℕ) (w : World) (os : List OrphanAssignee)
      → (orphan_assignees env after_id limit w).0 ≡ ok os
      → length os < limit
      → (task : Task) (o : OrphanAssignee) → In task w.tables.tasks
      → IsOrphan w.tables after_id task o
      → In o os
  unfolding orphan_assignees select_orphans
  orphan_assignees-In after_id limit w os h short task o m is =
      let e = query-ok env (select_orphans after_id limit) w os h in
      let rows = orphans w.tables after_id w.tables.tasks in
      subst (In o) (sym (take-all limit rows (subst (λ l. length l < limit) (sym e) short)) ∙ e)
        (orphans_complete w.tables after_id w.tables.tasks task o m is)
