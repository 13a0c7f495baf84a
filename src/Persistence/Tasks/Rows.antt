-- ===== src/Persistence/Tasks/Rows.antt =====
-- How the assignments of `Update` act on the rows of `tasks`, and on what `List` selects.
use task_tracker.Base.{
  ℕ, ◌≡◌, ◌≢◌, refl, sym, ap, ◌∙◌, Bool, true, false, Option, some, List, [], ◌∷◌, map, keep, find?,
  Bool-cases, All, ◌⊎◌, inl, inr, arith, ◌==◌, ==_iff,
}
use mathlib.Core.Option
use task_tracker.Domain.{Task, TaskFilter}
use task_tracker.Persistence.Tasks.{matches, assign}

-- The rows with this identifier belong to this team.
abbrev pub IsOfTeam : ℕ → ℕ → Task → Type 0
IsOfTeam task_id team_id t = t.id ≡ task_id → t.team_id ≡ team_id

pub assign-team_id :
    (now : ℕ) (t : Task) (completed_at : Option ℕ) (r : Task)
    → (assign now t completed_at r).team_id ≡ r.team_id
assign-team_id now t completed_at r = ground arith

matches-other_team : (f : TaskFilter) (r : Task) → r.team_id ≢ f.team_id → matches f r ≡ false
matches-other_team f r other = elim (Bool-cases (r.team_id == f.team_id)) [
  | inl same ↦ absurd (other ((==_iff r.team_id f.team_id).0 same))
  | inr differ ↦ simp differ
]

-- A row of another team is passed over before and after, and any other row is the same.
assign-matches :
    (now : ℕ) (t : Task) (completed_at : Option ℕ) (f : TaskFilter) (r : Task)
    → IsOfTeam t.id t.team_id r
    → t.team_id ≢ f.team_id
    → (assign now t completed_at r ≡ r)
      ⊎ ((matches f (assign now t completed_at r) ≡ false) × (matches f r ≡ false))
assign-matches now t completed_at f r of_team other = elim (Bool-cases (r.id == t.id)) [
  | inr differ ↦ inl (simp differ)
  | inl same ↦
      let team = of_team ((==_iff r.id t.id).0 same) in
      let apart : r.team_id ≢ f.team_id = λ e. other (sym team ∙ e) in
      inr (
        matches-other_team f (assign now t completed_at r)
            (λ e. apart (sym (assign-team_id now t completed_at r) ∙ e)),
        matches-other_team f r apart,
      )
]

keep-same :
    (p : Task → Bool) (x y : Task) (xs ys : List Task)
    → keep p xs ≡ keep p ys
    → (x ≡ y) ⊎ ((p x ≡ false) × (p y ≡ false))
    → keep p (x ∷ xs) ≡ keep p (y ∷ ys)
keep-same p x y xs ys rest (inl same) = ap (λ z. keep p (z ∷ xs)) same ∙ cons_keep
  where
    cons_keep : keep p (y ∷ xs) ≡ keep p (y ∷ ys)
    cons_keep = simp rest
keep-same p x y xs ys rest (inr (no_x, no_y)) = simp (no_x, no_y, rest)

pub keep-assign :
    (now : ℕ) (t : Task) (completed_at : Option ℕ) (f : TaskFilter) (rows : List Task)
    → All (IsOfTeam t.id t.team_id) rows
    → t.team_id ≢ f.team_id
    → keep (matches f) (map (assign now t completed_at) rows) ≡ keep (matches f) rows
keep-assign now t completed_at f [] all other = refl
keep-assign now t completed_at f (r ∷ rows) (of_team, all) other =
    keep-same (matches f) (assign now t completed_at r) r (map (assign now t completed_at) rows)
      rows (keep-assign now t completed_at f rows all other)
      (assign-matches now t completed_at f r of_team other)

pub find-id :
    (id : ℕ) (rows : List Task) (t : Task) → find? (λ r. r.id == id) rows ≡ some t → t.id ≡ id
find-id id [] t h = cc
find-id id (r ∷ rows) t h = elim (Bool-cases (r.id == id)) [
  | inl same ↦
      let e : some r ≡ some t = rw same at h in
      let e' : r ≡ t = cc in ap (λ x. x.id) (sym e') ∙ (==_iff r.id id).0 same
  | inr differ ↦ find-id id rows t (rw differ at h)
]

pub find-assign :
    (now : ℕ) (t : Task) (completed_at : Option ℕ) (id : ℕ) (rows : List Task) (r : Task)
    → find? (λ x. x.id == id) rows ≡ some r
    → find? (λ x. x.id == id) (map (assign now t completed_at) rows)
      ≡ some (assign now t completed_at r)
find-assign now t completed_at id [] r h = cc
find-assign now t completed_at id (x ∷ rows) r h =
    let same_id : (assign now t completed_at x).id ≡ x.id = ground arith in
    elim (Bool-cases (x.id == id)) [
      | inl same ↦
          let e : some x ≡ some r = rw same at h in
          let test : ((assign now t completed_at x).id == id) ≡ true =
            ap (λ n. n == id) same_id ∙ same in
          simp test (ap (Option.map (assign now t completed_at)) e)
      | inr differ ↦
          let rest = find-assign now t completed_at id rows r (rw differ at h) in
          let test : ((assign now t completed_at x).id == id) ≡ false =
            ap (λ n. n == id) same_id ∙ differ in
          simp test rest
    ]
