-- ===== src/Http/Tasks/Walk.antt =====
-- A client that follows the `next_cursor` of internal/transport/http/tasks/tasks.go to the last page.
use task_tracker.Base.{
  ℕ, zero, suc, ◌≤◌, ◌<◌, ◌≡◌, ◌≢◌, refl, ap, ◌∙◌, Option, none, some, List, [], ◌∷◌, ◌++◌, map,
  length, length-map, length-drop, length-keep-le, take, drop, take-append-drop, keep, Option-cases,
  inl, inr, arith,
}
use mathlib.Core.Option
use task_tracker.Domain.{Task, TaskFilter}
use task_tracker.Store.{Tables}
use task_tracker.Persistence.Tasks.{select, matches}
use task_tracker.Persistence.Tasks.Pages.{
  IsAscending, last_id, selected-IsAscending, drop-cursor, keep-later, last_id-take-ge,
}
use task_tracker.Http.Query.{next_cursor}
use task_tracker.Http.Tasks.Cursor.{next_cursor-full}

abbrev then_next : List Task → Option ℕ → (ℕ → Option (List Task)) → Option (List Task)
then_next page none again = some page
then_next page (some c) again = Option.map (λ rest. page ++ rest) (again c)

-- One page for each round of fuel; `none` means that the fuel ran out.
unfoldable pub walk : ℕ → TaskFilter → Tables → Option (List Task)
walk zero f t = none
walk (suc fuel) f t =
    let page = select f t in
    then_next page (next_cursor f.limit (map (λ (r : Task). r.id) page))
      (λ c. walk fuel (record f { after_id = c }) t)

take-all : (n : ℕ) (rows : List Task) → length (take n rows) ≢ n → take n rows ≡ rows
take-all zero rows short = absurd (short refl)
take-all (suc n) [] short = refl
take-all (suc n) (r ∷ rows) short = ap (λ rs. r ∷ rs) (take-all n rows (λ e. short (ap suc e)))

length-take-le : (n : ℕ) (rows : List Task) → length (take n rows) ≤ length rows
length-take-le zero rows = omega arith
length-take-le (suc n) [] = omega arith
length-take-le (suc n) (r ∷ rows) = omega (arith, length-take-le n rows)

-- No cursor: the page is not full.
next_cursor-none :
    (n : ℕ) (rows : List Task)
    → next_cursor n (map (λ (r : Task). r.id) rows) ≡ none
    → length rows ≢ n
next_cursor-none n rows h = λ e. ground (arith, length-map (λ (r : Task). r.id) rows)

-- What is above the cursor of a full page is what the page leaves.
rest_of :
    (f : TaskFilter) (t : Tables)
    → IsAscending 0 t.tasks
    → length (select f t) ≡ f.limit
    → keep (matches (record f { after_id = last_id f.after_id (select f t) })) t.tasks
      ≡ drop f.limit (keep (matches f) t.tasks)
unfolding select
rest_of f t asc full =
    let rows = keep (matches f) t.tasks in
    let asc' = selected-IsAscending f t.tasks 0 asc in
    keep-later f (last_id f.after_id (take f.limit rows)) t.tasks
      (last_id-take-ge f.limit f.after_id rows asc')
    ∙ drop-cursor f.limit f.after_id rows asc' full

walk_from :
    (fuel : ℕ) (f : TaskFilter) (t : Tables)
    → IsAscending 0 t.tasks
    → 1 ≤ f.limit
    → length (keep (matches f) t.tasks) < fuel
    → walk fuel f t ≡ some (keep (matches f) t.tasks)
unfolding walk select
walk_from zero f t asc one enough = absurd (omega arith)
walk_from (suc fuel) f t asc one enough =
    let rows = keep (matches f) t.tasks in
    elim (Option-cases (next_cursor f.limit (map (λ (r : Task). r.id) (select f t)))) [
      | inl last ↦
          rw last (ap some (take-all f.limit rows (next_cursor-none f.limit (select f t) last)))
      | inr (c, more) ↦
          let (full, at_last, some_task) = next_cursor-full f (select f t) c more one in
          let f' = record f { after_id = c } in
          let rest : keep (matches f') t.tasks ≡ drop f.limit rows =
            ap (λ k. keep (matches (record f { after_id = k })) t.tasks) at_last
            ∙ rest_of f t asc full in
          let ih = walk_from fuel f' t asc one (
            omega (arith, ap length rest, length-drop f.limit rows, length-take-le f.limit rows)) in
          rw (more, ih, rest) (ap some (take-append-drop f.limit rows))
    ]

-- If the rows of the tasks stand in the order of their identifiers, which are above zero, the limit
-- of a filter is at least one, and a client may ask for more pages than there are tasks, then
-- asking for the page behind each cursor comes to an end, and the pages together are all tasks that
-- match the filter, each once and in order.
pub walk-eq :
    (fuel : ℕ) (f : TaskFilter) (t : Tables)
    → IsAscending 0 t.tasks
    → 1 ≤ f.limit
    → length t.tasks < fuel
    → walk fuel f t ≡ some (keep (matches f) t.tasks)
walk-eq fuel f t asc one enough =
    walk_from fuel f t asc one (omega (arith, length-keep-le (matches f) t.tasks))
