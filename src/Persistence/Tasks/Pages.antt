-- ===== src/Persistence/Tasks/Pages.antt =====
-- The pages that a client reads by the cursor of `List`.
use task_tracker.Base.{
  ℕ, zero, suc, ◌+◌, ◌≤◌, ◌<◌, ◌≡◌, refl, sym, ap, ◌∙◌, Bool, true, false, List, [], ◌∷◌, ◌++◌,
  take, drop, keep, length, Bool-cases, inl, inr, arith, if◌then◌else◌,
}
use task_tracker.Domain.{Task, TaskFilter}
use task_tracker.Store.{Tables}
use task_tracker.Persistence.Tasks.{after_cursor, matches, select}

-- The rows stand in the order of their key, all above `lo`.
abbrev pub IsAscending : ℕ → List Task → Type 0
IsAscending lo [] = Unit {0}
IsAscending lo (r ∷ rows) = (lo < r.id) × IsAscending r.id rows

-- The cursor after a page.
abbrev pub last_id : ℕ → List Task → ℕ
last_id d [] = d
last_id d (r ∷ rows) = last_id r.id rows

IsAscending-below :
    (lo lo' : ℕ) (rows : List Task) → lo ≤ lo' → IsAscending lo' rows → IsAscending lo rows
IsAscending-below lo lo' [] le asc = tt
IsAscending-below lo lo' (r ∷ rows) le (above, asc) = (omega arith, asc)

IsAscending-keep :
    (p : Task → Bool) (lo : ℕ) (rows : List Task)
    → IsAscending lo rows
    → IsAscending lo (keep p rows)
IsAscending-keep p lo [] asc = tt
IsAscending-keep p lo (r ∷ rows) (above, asc) =
    let rest = IsAscending-keep p r.id rows asc in
    elim (Bool-cases (p r)) [
      | inl kept ↦ rw kept (above, rest)
      | inr left ↦ rw left (IsAscending-below lo r.id (keep p rows) (omega arith) rest)
    ]

-- What `List` selects is above its cursor.
matches-above : (f : TaskFilter) (r : Task) → 0 < r.id → matches f r ≡ true → f.after_id < r.id
matches-above f r positive h = ground arith

pub selected-IsAscending :
    (f : TaskFilter) (rows : List Task) (lo : ℕ)
    → IsAscending lo rows
    → IsAscending f.after_id (keep (matches f) rows)
selected-IsAscending f [] lo asc = tt
selected-IsAscending f (r ∷ rows) lo (above, asc) = elim (Bool-cases (matches f r)) [
  | inl kept ↦
      rw kept (matches-above f r (omega arith) kept, IsAscending-keep (matches f) r.id rows asc)
  | inr left ↦ rw left (selected-IsAscending f rows r.id asc)
]

pub last_id-take-ge :
    (n d : ℕ) (rows : List Task) → IsAscending d rows → d ≤ last_id d (take n rows)
last_id-take-ge zero d rows asc = omega arith
last_id-take-ge (suc n) d [] asc = omega arith
last_id-take-ge (suc n) d (r ∷ rows) (above, asc) =
    let rest = last_id-take-ge n r.id rows asc in omega arith

above_cursor :
    (d : ℕ) (rows : List Task) → IsAscending d rows → keep (λ r. after_cursor d r.id) rows ≡ rows
above_cursor d [] asc = refl
above_cursor d (r ∷ rows) (above, asc) =
    let here : after_cursor d r.id ≡ true = ground arith in
    let rest = above_cursor d rows (IsAscending-below d r.id rows (omega arith) asc) in
    rw here (ap (λ rs. r ∷ rs) rest)

-- The rows after the first `n` are those above the cursor of the first `n`.
pub drop-cursor :
    (n d : ℕ) (rows : List Task)
    → IsAscending d rows
    → length (take n rows) ≡ n
    → keep (λ r. after_cursor (last_id d (take n rows)) r.id) rows ≡ drop n rows
drop-cursor zero d rows asc full = above_cursor d rows asc
drop-cursor (suc n) d [] asc full = refl
drop-cursor (suc n) d (r ∷ rows) (above, asc) full =
    let ge = last_id-take-ge n r.id rows asc in
    let rest = drop-cursor n r.id rows asc (omega arith) in
    let here : after_cursor (last_id r.id (take n rows)) r.id ≡ false = ground arith in rw here rest

-- A later cursor only takes away from what an earlier one selects.
matches-later :
    (f : TaskFilter) (l : ℕ) (r : Task)
    → f.after_id ≤ l
    → matches (record f { after_id = l }) r ≡ (if matches f r then after_cursor l r.id else false)
matches-later f l r le = ground arith

keep-narrow :
    (p q s : Task → Bool) (rows : List Task)
    → ((r : Task) → p r ≡ (if s r then q r else false))
    → keep p rows ≡ keep q (keep s rows)
keep-narrow p q s [] same = refl
keep-narrow p q s (r ∷ rows) same =
    let rest = keep-narrow p q s rows same in
    elim (Bool-cases (s r)) [
      | inl kept ↦ simp (same r, kept, rest)
      | inr left ↦ simp (same r, left, rest)
    ]

pub keep-later :
    (f : TaskFilter) (l : ℕ) (rows : List Task)
    → f.after_id ≤ l
    → keep (matches (record f { after_id = l })) rows
      ≡ keep (λ r. after_cursor l r.id) (keep (matches f) rows)
keep-later f l rows le =
    keep-narrow (matches (record f { after_id = l })) (λ r. after_cursor l r.id) (matches f) rows
      (λ r. matches-later f l r le)

take-nil : (n : ℕ) → take {A = Task} n [] ≡ []
take-nil zero = refl
take-nil (suc n) = refl

take-add : (n m : ℕ) (rows : List Task) → take n rows ++ take m (drop n rows) ≡ take (n + m) rows
take-add zero m rows = ap (λ k. take k rows) (omega arith)
take-add (suc n) m [] = take-nil m ∙ sym (take-nil (suc n + m))
take-add (suc n) m (r ∷ rows) =
    let e : suc n + m ≡ suc (n + m) = omega arith in
    ap (λ rs. r ∷ rs) (take-add n m rows) ∙ ap (λ k. take k (r ∷ rows)) (sym e)

-- If the rows of the tasks stand in the order of their identifiers, which are above zero, and a
-- page has as many tasks as its limit, then the page followed by the page whose cursor is the last
-- identifier of the first (the same cursor, if the page is empty) is the one page with both limits
-- added.
pub select-append-select :
    (f : TaskFilter) (m : ℕ) (t : Tables)
    → IsAscending 0 t.tasks
    → length (select f t) ≡ f.limit
    → select f t ++ select (record f { after_id = last_id f.after_id (select f t); limit = m }) t
      ≡ select (record f { limit = f.limit + m }) t
unfolding select
select-append-select f m t asc full =
    let rows = keep (matches f) t.tasks in
    let asc' = selected-IsAscending f t.tasks 0 asc in
    let l = last_id f.after_id (take f.limit rows) in
    let next =
      keep-later f l t.tasks (last_id-take-ge f.limit f.after_id rows asc')
      ∙ drop-cursor f.limit f.after_id rows asc' full in
    ap (λ rs. take f.limit rows ++ take m rs) next ∙ take-add f.limit m rows
