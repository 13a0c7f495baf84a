-- ===== src/Http/Tasks/Cursor.antt =====
-- The pages that `listHandler` of internal/transport/http/tasks/tasks.go answers, and the cursor by which a
-- client asks for the next one.
use task_tracker.Base.{
  ℕ, zero, suc, ◌+◌, ◌≤◌, ◌<◌, ◌^◌, ◌≡◌, refl, sym, ap, subst, ◌∙◌, Bool, some, List, [], ◌∷◌, ◌++◌,
  map, map-append, decimal, length, length-map, Option-cases, inl, inr, arith, take,
}
use task_tracker.Tx.{ok}
use task_tracker.Domain.{
  Task, TaskFilter, Error, not_found, forbidden, email_taken, invalid_credentials, already_member,
  not_team_member, internal,
}
use task_tracker.Store.{Env, World, Tables}
use task_tracker.Persistence.Tasks.{select}
use task_tracker.Persistence.Tasks.Pages.{
  IsAscending, last_id, selected-IsAscending, select-append-select,
}
use task_tracker.Service.Tasks
use task_tracker.Service.Tasks.Cached.{list-Coherent}
use task_tracker.Service.Cache.Coherence.{Coherent}
use task_tracker.Http.Kit.{json, status, Request}
use task_tracker.Http.Kit.Gates.{answer-json}
use task_tracker.Http.Query.{Parsed-cases, parsed, next_cursor, last_of}
use task_tracker.Http.Tasks.{
  TaskListResponse, to_task_response, task_page, read_failure, list_handler,
}
use task_tracker.Http.Tasks.Filter.{parse_list_filter}
use task_tracker.Http.Tasks.Filter.Bounds.{
  parse_list_filter-IsRequest, with_cursor, parse_list_filter-with_cursor,
}

read_failure-code :
    (ended : Bool) (e : Error) → 400 ≤ status (read_failure {B = TaskListResponse} ended e)
read_failure-code ended not_found = omega arith
read_failure-code ended forbidden = omega arith
read_failure-code ended not_team_member = ground arith
read_failure-code ended email_taken = ground arith
read_failure-code ended invalid_credentials = ground arith
read_failure-code ended already_member = ground arith
read_failure-code ended internal = ground arith

module _ (env : Env) where
  -- What stands behind a page.
  pub record Listed (req : Request (Unit {0})) (w : World) (page : TaskListResponse) : Type 0 where
    pub user_id : ℕ
    pub filter : TaskFilter
    pub tasks : List Task
    pub principal : req.principal ≡ some user_id
    pub asked : parse_list_filter req.query ≡ parsed filter
    pub listed : (Tasks.list env user_id filter w).0 ≡ ok tasks
    pub shown : page ≡ task_page filter tasks
    pub after : (list_handler env req w).1 ≡ (Tasks.list env user_id filter w).1

  pub list_handler-Listed :
      (req : Request (Unit {0})) (w : World) (page : TaskListResponse)
      → (list_handler env req w).0 ≡ ok (json 200 page)
      → Listed req w page
  unfolding list_handler
  list_handler-Listed req w page h = elim (Option-cases req.principal) [
    | inl missing ↦ let refused = rw missing at h in cc
    | inr (user_id, is_user) ↦
        let h₁ = rw is_user at h in
        elim (Parsed-cases (parse_list_filter req.query)) [
          | inl (message, bad) ↦ let refused = rw bad at h₁ in cc
          | inr (f, asked) ↦
              let h₂ = rw asked at h₁ in
              let (tasks, listed, shown) =
                answer-json (Tasks.list env user_id f) (λ tasks. json 200 (task_page f tasks))
                  (read_failure req.ended) w 200 page (read_failure-code req.ended) (omega arith)
                  h₂ in
              record {
                user_id = user_id;
                filter = f;
                tasks = tasks;
                principal = is_user;
                asked = asked;
                listed = listed;
                shown = cc shown;
                after = rw (is_user, asked) refl;
              }
        ]
  ]

-- The filter of a request and its world, with the facts that a client's first page gives.
last_of-ids :
    (d : ℕ) (tasks : List Task) → last_of d (map (λ (t : Task). t.id) tasks) ≡ last_id d tasks
last_of-ids d [] = refl
last_of-ids d (t ∷ tasks) = last_of-ids t.id tasks

last_id-any : (d d' : ℕ) (tasks : List Task) → 1 ≤ length tasks → last_id d tasks ≡ last_id d' tasks
last_id-any d d' [] one = absurd (omega arith)
last_id-any d d' (t ∷ tasks) one = refl

-- A page that names a cursor is full, and the cursor is the identifier of its last task.
pub next_cursor-full :
    (f : TaskFilter) (tasks : List Task) (c : ℕ)
    → next_cursor f.limit (map (λ (t : Task). t.id) tasks) ≡ some c
    → 1 ≤ f.limit
    → (length tasks ≡ f.limit) × (c ≡ last_id f.after_id tasks) × (1 ≤ length tasks)
next_cursor-full f tasks c h one = ground (
  arith,
  length-map (λ (t : Task). t.id) tasks,
  last_of-ids 0 tasks,
  last_id-any 0 f.after_id tasks,
)

IsAscending-take :
    (n lo : ℕ) (rows : List Task) → IsAscending lo rows → IsAscending lo (take n rows)
IsAscending-take zero lo rows asc = tt
IsAscending-take (suc n) lo [] asc = tt
IsAscending-take (suc n) lo (r ∷ rows) (above, asc) = (above, IsAscending-take n r.id rows asc)

last_id-ge : (lo : ℕ) (rows : List Task) → IsAscending lo rows → lo ≤ last_id lo rows
last_id-ge lo [] asc = omega arith
last_id-ge lo (r ∷ rows) (above, asc) = omega (arith, last_id-ge r.id rows asc)

pub last_id-gt :
    (lo : ℕ) (rows : List Task) → IsAscending lo rows → 1 ≤ length rows → lo < last_id lo rows
last_id-gt lo [] asc one = absurd (omega arith)
last_id-gt lo (r ∷ rows) (above, asc) one = omega (arith, last_id-ge r.id rows asc)

pub select-IsAscending :
    (f : TaskFilter) (t : Tables) → IsAscending 0 t.tasks → IsAscending f.after_id (select f t)
unfolding select
select-IsAscending f t asc =
    IsAscending-take f.limit f.after_id _ (selected-IsAscending f t.tasks 0 asc)

-- The query that asks for the page behind a cursor.
abbrev pub asking : ℕ → Request (Unit {0}) → Request (Unit {0})
asking c req = record req { query = with_cursor (decimal c) req.query }

parsed-injective : {A : Type 0} {a b : A} → parsed a ≡ parsed b → a ≡ b
parsed-injective e = cc e

module _ (env : Env) where
  -- A page is what its filter selects, and the cached lists stay coherent.
  Listed-select :
      (req : Request (Unit {0})) (w : World) (page : TaskListResponse) (l : Listed env req w page)
      → Coherent l.filter.team_id w
      → (l.tasks ≡ select l.filter w.tables)
        × Coherent l.filter.team_id (list_handler env req w).1
        × ((list_handler env req w).1.tables ≡ w.tables)
        × (1 ≤ l.filter.limit)
  Listed-select req w page l coherent =
      let (is_request, _, one, _) = parse_list_filter-IsRequest req.query l.filter l.asked in
      let (_, selected, coherent', kept) =
        list-Coherent env l.user_id l.filter w l.tasks is_request coherent l.listed in
      (selected, rw l.after coherent', ap (λ v. v.tables) l.after ∙ kept, one)

  -- Assume that the rows of the tasks stand in the order of their identifiers, which are above
  -- zero, and that the cached lists of every team are coherent. If a page of tasks is answered with
  -- a cursor that is an int64 value, and the same query with that cursor, written in decimal, is
  -- then answered with a page, then the two pages together are the tasks that the filter of the
  -- query selects with twice its limit.
  pub list_handler-next_page :
      (req : Request (Unit {0})) (w : World) (first next : TaskListResponse) (c : ℕ)
      → IsAscending 0 w.tables.tasks
      → ((team_id : ℕ) → Coherent team_id w)
      → (list_handler env req w).0 ≡ ok (json 200 first)
      → first.next_cursor ≡ some c
      → c < 2 ^ 63
      → (list_handler env (asking c req) (list_handler env req w).1).0 ≡ ok (json 200 next)
      → (f : TaskFilter) × (parse_list_filter req.query ≡ parsed f)
        × (first.items ++ next.items
            ≡ map to_task_response (select (record f { limit = f.limit + f.limit }) w.tables))
  list_handler-next_page req w first next c asc coherent answered cursor small answered' =
      let w' = (list_handler env req w).1 in
      let l = list_handler-Listed env req w first answered in
      let l' = list_handler-Listed env (asking c req) w' next answered' in
      let f = l.filter in
      let (selected, coherent', kept, one) = Listed-select req w first l (coherent f.team_id) in
      let (full, at_last, some_task) =
        next_cursor-full f l.tasks c (sym (ap (λ p. p.next_cursor) l.shown) ∙ cursor) one in
      let above = select-IsAscending f w.tables asc in
      let positive : 1 ≤ c = omega (
        arith,
        at_last,
        last_id-gt f.after_id (select f w.tables) above
            (subst (λ ts. 1 ≤ length ts) selected some_task),
        ap (last_id f.after_id) selected,
      ) in
      let same : l'.filter ≡ record f { after_id = c } =
        parsed-injective
          (sym l'.asked ∙ parse_list_filter-with_cursor req.query f c l.asked positive small) in
      let (selected', _, _, _) =
        Listed-select (asking c req) w' next l'
          (subst (λ (g : TaskFilter). Coherent g.team_id w') (sym same) coherent') in
      let cursor_of : c ≡ last_id f.after_id (select f w.tables) =
        at_last ∙ ap (last_id f.after_id) selected in
      let second : l'.tasks ≡ select (record f { after_id = c }) w.tables =
        selected' ∙ ap (select l'.filter) kept ∙ ap (λ g. select g w.tables) same in
      let joined = select-append-select f f.limit w.tables asc (ap length (sym selected) ∙ full) in
      let tasks : l.tasks ++ l'.tasks ≡ select (record f { limit = f.limit + f.limit }) w.tables =
        ap (λ ts. ts ++ l'.tasks) selected
        ∙ ap (λ ts. select f w.tables ++ ts) second
        ∙ ap (λ k. select f w.tables ++ select (record f { after_id = k }) w.tables) cursor_of
        ∙ joined in
      (
        f,
        l.asked,
        ap (λ p. p.items ++ next.items) l.shown
            ∙ ap (λ p. map to_task_response l.tasks ++ p.items) l'.shown
            ∙ sym (map-append to_task_response l.tasks l'.tasks)
            ∙ ap (map to_task_response) tasks,
      )
