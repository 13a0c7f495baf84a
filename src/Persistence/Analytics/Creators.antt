-- ===== src/Persistence/Analytics/Creators.antt =====
-- The order of the rows of `TopCreators`.
use task_tracker.Base.{
  ℕ, suc, ◌≤◌, ◌<◌, ◌≡◌, true, false, List, [], ◌∷◌, take, length, length-append, length-take,
  Bool-cases, Option-cases, none, some, count, min, All, In, ◌+◌, ◌⊎◌, inl, inr, arith,
}
use task_tracker.Domain.{Team, User, TeamTopCreator}
use task_tracker.Store.{Tables, find_team, find_user}
use task_tracker.Persistence.Analytics.Tally.{creators, tally, count-ranked, ranked-counts}
use task_tracker.Persistence.Analytics.Report.{nth, row_of, Shows, name_all-Shows, name_all-In}
use task_tracker.Persistence.Analytics.{
  Created, comes_before, insert_created, sort_created, created_of, ranked, named, name_all, top_of,
}

-- More tasks first; of equal counts, the lower identifier first.
abbrev pub Before : Created → Created → Type 0
Before a b = (b.cnt < a.cnt) ⊎ ((a.cnt ≡ b.cnt) × (a.created_by ≤ b.created_by))

-- Each element is before the next one.
abbrev pub IsRanked : List Created → Type 0
IsRanked [] = Unit {0}
IsRanked (a ∷ []) = Unit {0}
IsRanked (a ∷ b ∷ rest) = Before a b × IsRanked (b ∷ rest)

comes_before-Before : (a b : Created) → comes_before a b ≡ true → Before a b
comes_before-Before a b h = ground arith

later-Before : (a b : Created) → comes_before a b ≡ false → Before b a
later-Before a b h = ground arith

insert_created-IsRanked :
    (a : Created) (rows : List Created) → IsRanked rows → IsRanked (insert_created a rows)
unfolding insert_created
insert_created-IsRanked a [] r = tt
insert_created-IsRanked a (b ∷ []) r = elim (Bool-cases (comes_before a b)) [
  | inl first ↦ rw first (comes_before-Before a b first, tt)
  | inr later ↦ rw later (later-Before a b later, tt)
]
insert_created-IsRanked a (b ∷ c ∷ rows) (bc, r) =
    let rest = insert_created-IsRanked a (c ∷ rows) r in
    elim (Bool-cases (comes_before a b)) [
      | inl first ↦ rw first (comes_before-Before a b first, (bc, r))
      | inr later ↦ elim (Bool-cases (comes_before a c)) [
        | inl next ↦ rw (later, next) (later-Before a b later, rw next at rest)
        | inr after ↦ rw (later, after) (bc, rw after at rest)
      ]
    ]

sort_created-IsRanked : (rows : List Created) → IsRanked (sort_created rows)
unfolding sort_created
sort_created-IsRanked [] = tt
sort_created-IsRanked (a ∷ rows) =
    insert_created-IsRanked a (sort_created rows) (sort_created-IsRanked rows)

named-length : (t : Tables) (team_id rank : ℕ) (c : Created) → length (named t team_id rank c) ≤ 1
named-length t team_id rank c = ground arith

name_all-length :
    (t : Tables) (team_id rank : ℕ) (rows : List Created)
    → length (name_all t team_id rank rows) ≤ length rows
unfolding name_all
name_all-length t team_id rank [] = omega arith
name_all-length t team_id rank (c ∷ rows) =
    let rest = name_all-length t team_id (suc rank) rows in
    let here = length-append (named t team_id rank c) (name_all t team_id (suc rank) rows) in
    let one = named-length t team_id rank c in omega arith

-- A creator at a place is in the report, unless there is none or its team or its user is missing.
abbrev pub IsListed : Tables → ℕ → List Created → List TeamTopCreator → ℕ → Type 0
IsListed t team_id cs rows place =
    (nth place cs ≡ none)
    ⊎ ((c : Created) × (nth place cs ≡ some c)
        × ((find_team team_id t ≡ none)
            ⊎ (find_user c.created_by t ≡ none)
            ⊎ ((team : Team) × (user : User) × (find_team team_id t ≡ some team)
                × (find_user c.created_by t ≡ some user)
                × In (row_of team_id team user (1 + place) c) rows)))

name_all-IsListed :
    (t : Tables) (team_id : ℕ) (cs : List Created) (place : ℕ)
    → IsListed t team_id cs (name_all t team_id 1 cs) place
name_all-IsListed t team_id cs place = elim (Option-cases (nth place cs)) [
  | inl nobody ↦ inl nobody
  | inr (c, at_place) ↦ elim (Option-cases (find_team team_id t)) [
    | inl no_team ↦ inr (c, at_place, inl no_team)
    | inr (team, has_team) ↦ elim (Option-cases (find_user c.created_by t)) [
      | inl no_user ↦ inr (c, at_place, inr (inl no_user))
      | inr (user, has_user) ↦
          let row = name_all-In t team_id 1 place cs c team user at_place has_team has_user in
          inr (c, at_place, inr (inr (team, user, has_team, has_user, row)))
    ]
  ]
]

-- In the ranking of a team, each user stands once if some task of the team was made by that user
-- since the instant that the query counts back to, and not at all otherwise, with the number of
-- those tasks; the greatest number comes first, and of equal numbers the lowest identifier. The
-- report shows of the first three, each at its rank, those whose team and user are in the tables,
-- with their names, and nobody else; it has at most three rows for a team.
pub top_of-IsRanked :
    (instant : ℕ) (t : Tables) (team_id user_id place : ℕ)
    → let rows = ranked instant t team_id in
      IsRanked rows
      × (count user_id (creators rows) ≡ min 1 (tally instant t team_id user_id))
      × All (λ c. c.cnt ≡ tally instant t team_id c.created_by) rows
      × All (Shows t team_id 1 (take 3 rows)) (top_of instant t team_id)
      × IsListed t team_id (take 3 rows) (top_of instant t team_id) place
      × (length (top_of instant t team_id) ≤ 3)
unfolding ranked top_of
top_of-IsRanked instant t team_id user_id place =
    let rows = ranked instant t team_id in
    let named_rows = name_all-length t team_id 1 (take 3 rows) in
    let taken = length-take 3 rows in
    (
      sort_created-IsRanked (created_of instant t team_id),
      count-ranked instant t team_id user_id,
      ranked-counts instant t team_id,
      name_all-Shows t team_id 1 (take 3 rows),
      name_all-IsListed t team_id (take 3 rows) place,
      omega arith,
    )
