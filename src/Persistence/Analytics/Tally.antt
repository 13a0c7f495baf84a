-- ===== src/Persistence/Analytics/Tally.antt =====
-- The creators of a team that `TopCreators` counts: each once, with the number of tasks.
use task_tracker.Base.{
  ℕ, suc, ◌≤◌, ◌<◌, ◌≡◌, refl, ap, ◌∙◌, Bool, false, List, [], ◌∷◌, map, keep, length, count, All,
  min, leb, ltb, ltb→lt, subst, ◌==◌, ==_iff, if◌then◌else◌, Bool-cases, inl, inr, arith,
}
use task_tracker.Domain.{Task}
use task_tracker.Store.{Tables}
use task_tracker.Persistence.Analytics.{
  Created, comes_before, insert_created, sort_created, insert_distinct, distinct, created_of,
  ranked,
}

-- A task of the team, made by the user since the instant.
abbrev pub is_counted : ℕ → ℕ → ℕ → Task → Bool
is_counted instant team_id user_id t =
    if leb instant t.created_at
    then (if t.team_id == team_id then t.created_by == user_id else false)
    else false

abbrev pub tally : ℕ → Tables → ℕ → ℕ → ℕ
tally instant t team_id user_id = length (keep (is_counted instant team_id user_id) t.tasks)

own-tally :
    (instant team_id user_id : ℕ) (tasks : List Task)
    → length (
        keep
          (λ (t : Task). t.created_by == user_id)
          (keep (λ t. t.team_id == team_id) (keep (λ t. leb instant t.created_at) tasks)))
      ≡ length (keep (is_counted instant team_id user_id) tasks)
own-tally instant team_id user_id [] = refl
own-tally instant team_id user_id (t ∷ tasks) =
    let rest = own-tally instant team_id user_id tasks in
    elim (Bool-cases (leb instant t.created_at)) [
      | inr old ↦ rw old rest
      | inl recent ↦ elim (Bool-cases (t.team_id == team_id)) [
        | inr other ↦ rw (recent, other) rest
        | inl same ↦ elim (Bool-cases (t.created_by == user_id)) [
          | inl own ↦ rw (recent, same, own) (ap suc rest)
          | inr foreign ↦ rw (recent, same, foreign) rest
        ]
      ]
    ]

-- Ascending, without repetitions, from `lo` on.
abbrev From : ℕ → List ℕ → Type 0
From lo [] = Unit {0}
From lo (x ∷ xs) = (lo ≤ x) × From (suc x) xs

insert_distinct-From :
    (lo a : ℕ) (xs : List ℕ) → lo ≤ a → From lo xs → From lo (insert_distinct a xs)
unfolding insert_distinct
insert_distinct-From lo a [] le f = (le, tt)
insert_distinct-From lo a (b ∷ bs) le (le_b, f) = elim (Bool-cases (ltb a b)) [
  | inl less ↦ rw less (le, (ground arith, f))
  | inr not_less ↦ elim (Bool-cases (a == b)) [
    | inl same ↦ rw (not_less, same) (le_b, f)
    | inr other ↦ rw (not_less, other) (le_b, insert_distinct-From (suc b) a bs (ground arith) f)
  ]
]

count-From : (u lo : ℕ) (xs : List ℕ) → u < lo → From lo xs → count u xs ≡ 0
count-From u lo [] less f = refl
count-From u lo (x ∷ xs) less (le, f) =
    let later = count-From u (suc x) xs (omega arith) f in ground arith

count-insert_distinct :
    (u lo a : ℕ) (xs : List ℕ)
    → From lo xs
    → count u (insert_distinct a xs) ≡ (if a == u then 1 else count u xs)
unfolding insert_distinct
count-insert_distinct u lo a [] f = ground arith
count-insert_distinct u lo a (b ∷ bs) (le, f) =
    let rest = count-insert_distinct u (suc b) a bs f in
    elim (Bool-cases (ltb a b)) [
      | inl less ↦
          let after = count-From a b (b ∷ bs) (ltb→lt a b less) (omega arith, f) in
          rw less (elim (Bool-cases (a == u)) [
            | inl same ↦
                let after_u = subst (λ v. count v (b ∷ bs) ≡ 0) ((==_iff a u).0 same) after in
                rw same (ap suc after_u)
            | inr other ↦ rw other refl
          ])
      | inr not_less ↦ elim (Bool-cases (a == b)) [
        | inl equal ↦
            let after = count-From b (suc b) bs (omega arith) f in
            rw (not_less, equal, (==_iff a b).0 equal)
              (elim (Bool-cases (b == u)) [
                | inl same ↦
                    let after_u = subst (λ v. count v bs ≡ 0) ((==_iff b u).0 same) after in
                    rw same (ap suc after_u)
                | inr other ↦ rw other refl
              ])
        | inr different ↦
            rw (not_less, different)
              (elim (Bool-cases (a == u)) [
                | inl same ↦ ground (arith, rest)
                | inr other ↦ ground (arith, rest)
              ])
      ]
    ]

distinct-From : (key : Task → ℕ) (tasks : List Task) → From 0 (distinct key tasks)
unfolding distinct
distinct-From key [] = tt
distinct-From key (t ∷ tasks) =
    insert_distinct-From 0 (key t) (distinct key tasks) (omega arith) (distinct-From key tasks)

count-distinct :
    (u : ℕ) (key : Task → ℕ) (tasks : List Task)
    → count u (distinct key tasks) ≡ min 1 (length (keep (λ t. key t == u) tasks))
unfolding distinct
count-distinct u key [] = refl
count-distinct u key (t ∷ tasks) =
    let rest = count-distinct u key tasks in
    let here = count-insert_distinct u 0 (key t) (distinct key tasks) (distinct-From key tasks) in
    here ∙ elim (Bool-cases (key t == u)) [
      | inl same ↦ rw same (omega arith)
      | inr other ↦ rw other rest
    ]

abbrev pub creators : List Created → List ℕ
creators rows = map (λ c. c.created_by) rows

-- Sorting keeps every creator, and what holds of every row.
count-insert_created :
    (u : ℕ) (a : Created) (rows : List Created)
    → count u (creators (insert_created a rows)) ≡ count u (a.created_by ∷ creators rows)
unfolding insert_created
count-insert_created u a [] = refl
count-insert_created u a (b ∷ rows) =
    let rest = count-insert_created u a rows in
    elim (Bool-cases (comes_before a b)) [
      | inl first ↦ rw first refl
      | inr later ↦ rw later (ground (arith, rest))
    ]

count-sort_created :
    (u : ℕ) (rows : List Created) → count u (creators (sort_created rows)) ≡ count u (creators rows)
unfolding sort_created
count-sort_created u [] = refl
count-sort_created u (a ∷ rows) =
    let rest = count-sort_created u rows in
    count-insert_created u a (sort_created rows) ∙ ground (arith, rest)

insert_created-All :
    (P : Created → Type 0) (a : Created) (rows : List Created)
    → P a
    → All P rows
    → All P (insert_created a rows)
unfolding insert_created
insert_created-All P a [] h all = (h, tt)
insert_created-All P a (b ∷ rows) h (hb, all) = elim (Bool-cases (comes_before a b)) [
  | inl first ↦ rw first (h, (hb, all))
  | inr later ↦ rw later (hb, insert_created-All P a rows h all)
]

sort_created-All :
    (P : Created → Type 0) (rows : List Created) → All P rows → All P (sort_created rows)
unfolding sort_created
sort_created-All P [] all = tt
sort_created-All P (a ∷ rows) (h, all) =
    insert_created-All P a (sort_created rows) h (sort_created-All P rows all)

creators-map :
    (f : ℕ → ℕ) (us : List ℕ) → creators (map (λ u. record { created_by = u; cnt = f u }) us) ≡ us
creators-map f [] = refl
creators-map f (u ∷ us) = ap (λ vs. u ∷ vs) (creators-map f us)

counted-All :
    (f g : ℕ → ℕ) (us : List ℕ)
    → ((u : ℕ) → f u ≡ g u)
    → All
        (λ (c : Created). c.cnt ≡ g c.created_by)
        (map (λ u. record { created_by = u; cnt = f u }) us)
counted-All f g [] same = tt
counted-All f g (u ∷ us) same = (same u, counted-All f g us same)

module _ (instant : ℕ) (t : Tables) (team_id : ℕ) where
  abbrev own : List Task
  own = keep (λ task. task.team_id == team_id) (keep (λ task. leb instant task.created_at) t.tasks)

  abbrev own_count : ℕ → ℕ
  own_count u = length (keep (λ (task : Task). task.created_by == u) own)

  -- Each user is ranked once if there is a task to count, and not at all otherwise.
  pub count-ranked :
      (u : ℕ) → count u (creators (ranked instant t team_id)) ≡ min 1 (tally instant t team_id u)
  unfolding ranked created_of
  count-ranked u =
      count-sort_created u (created_of instant t team_id)
      ∙ ap (count u) (creators-map own_count (distinct (λ task. task.created_by) own))
      ∙ count-distinct u (λ task. task.created_by) own
      ∙ ap (min 1) (own-tally instant team_id u t.tasks)

  pub ranked-counts :
      All (λ (c : Created). c.cnt ≡ tally instant t team_id c.created_by) (ranked instant t team_id)
  unfolding ranked created_of
  ranked-counts =
      sort_created-All (λ (c : Created). c.cnt ≡ tally instant t team_id c.created_by)
        (created_of instant t team_id)
        (counted-All own_count (tally instant t team_id) (distinct (λ task. task.created_by) own)
          (λ u. own-tally instant team_id u t.tasks))
