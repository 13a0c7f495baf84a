-- ===== src/Persistence/Analytics/Report.antt =====
-- The rows that `TopCreators` makes of the ranked creators of a team.
use task_tracker.Base.{
  ℕ, zero, suc, ◌+◌, ◌≡◌, ◌⊎◌, refl, sym, ap, ◌∙◌, subst, Option, none, some, Option-cases, List,
  [], ◌∷◌, All, All-append, In, In-append_left, In-append_right, inl, inr, arith,
}
use task_tracker.Domain.{Team, User, TeamTopCreator}
use task_tracker.Store.{Tables, find_team, find_user}
use task_tracker.Persistence.Analytics.{Created, named, name_all}

abbrev pub nth : {A : Type 0} → ℕ → List A → Option A
nth n [] = none
nth zero (x ∷ xs) = some x
nth (suc n) (x ∷ xs) = nth n xs

abbrev pub row_of : ℕ → Team → User → ℕ → Created → TeamTopCreator
row_of team_id team u rank c = record {
  team_name = team.name;
  user_name = u.name;
  team_id = team_id;
  user_id = c.created_by;
  tasks_created = c.cnt;
  rank = rank;
}

module _ (t : Tables) (team_id : ℕ) where
  -- The row shows the creator at its place, counted from `rank`, with the names of the tables.
  pub record Shows (rank : ℕ) (cs : List Created) (row : TeamTopCreator) : Type 0 where
    pub place : ℕ
    pub creator : Created
    pub team : Team
    pub user : User
    pub at_place : nth place cs ≡ some creator
    pub has_team : find_team team_id t ≡ some team
    pub has_user : find_user creator.created_by t ≡ some user
    pub shown : row ≡ row_of team_id team user (rank + place) creator

  named-eq :
      (rank : ℕ) (c : Created) (team : Team) (user : User)
      → find_team team_id t ≡ some team
      → find_user c.created_by t ≡ some user
      → named t team_id rank c ≡ row_of team_id team user rank c ∷ []
  named-eq rank c team user has_team has_user = rw (has_team, has_user) refl

  -- No row, or the one of the team and the user.
  named-cases :
      (rank : ℕ) (c : Created)
      → (named t team_id rank c ≡ [])
        ⊎ ((team : Team) × (user : User) × (find_team team_id t ≡ some team)
            × (find_user c.created_by t ≡ some user))
  named-cases rank c = elim (Option-cases (find_team team_id t)) [
    | inl no_team ↦ inl (rw no_team refl)
    | inr (team, has_team) ↦ elim (Option-cases (find_user c.created_by t)) [
      | inl no_user ↦ inl (rw (has_team, no_user) refl)
      | inr (user, has_user) ↦ inr (team, user, has_team, has_user)
    ]
  ]

  named-Shows :
      (rank : ℕ) (c : Created) (cs : List Created)
      → All (Shows rank (c ∷ cs)) (named t team_id rank c)
  named-Shows rank c cs = elim (named-cases rank c) [
    | inl dropped ↦ subst (All (Shows rank (c ∷ cs))) (sym dropped) tt
    | inr (team, user, has_team, has_user) ↦
        subst (All (Shows rank (c ∷ cs))) (sym (named-eq rank c team user has_team has_user)) (
          record {
            place = 0;
            creator = c;
            team = team;
            user = user;
            at_place = refl;
            has_team = has_team;
            has_user = has_user;
            shown = ap (λ n. row_of team_id team user n c) (omega arith);
          },
          tt,
        )
  ]

  later-Shows :
      (rank : ℕ) (c : Created) (cs : List Created) (rows : List TeamTopCreator)
      → All (Shows (suc rank) cs) rows
      → All (Shows rank (c ∷ cs)) rows
  later-Shows rank c cs [] all = tt
  later-Shows rank c cs (row ∷ rows) (s, all) = (
    record {
      place = suc s.place;
      creator = s.creator;
      team = s.team;
      user = s.user;
      at_place = s.at_place;
      has_team = s.has_team;
      has_user = s.has_user;
      shown = s.shown ∙ ap (λ n. row_of team_id s.team s.user n s.creator) (omega arith);
    },
    later-Shows rank c cs rows all,
  )

  pub name_all-Shows :
      (rank : ℕ) (cs : List Created) → All (Shows rank cs) (name_all t team_id rank cs)
  unfolding name_all
  name_all-Shows rank [] = tt
  name_all-Shows rank (c ∷ cs) =
      All-append (Shows rank (c ∷ cs)) (named t team_id rank c) (name_all t team_id (suc rank) cs)
        (named-Shows rank c cs)
        (later-Shows rank c cs (name_all t team_id (suc rank) cs) (name_all-Shows (suc rank) cs))

  -- Every creator at a place whose team and user are there has its row.
  pub name_all-In :
      (rank place : ℕ) (cs : List Created) (c : Created) (team : Team) (user : User)
      → nth place cs ≡ some c
      → find_team team_id t ≡ some team
      → find_user c.created_by t ≡ some user
      → In (row_of team_id team user (rank + place) c) (name_all t team_id rank cs)
  unfolding name_all
  name_all-In rank place [] c team user e has_team has_user = cc
  name_all-In rank zero (d ∷ cs) c team user e has_team has_user =
      let same : d ≡ c = cc in
      In-append_left _ (named t team_id rank d) (name_all t team_id (suc rank) cs) (
        subst (In (row_of team_id team user (rank + 0) c))
          (sym (ap (named t team_id rank) same ∙ named-eq rank c team user has_team has_user))
          (inl (ap (λ n. row_of team_id team user n c) (omega arith))))
  name_all-In rank (suc place) (d ∷ cs) c team user e has_team has_user =
      In-append_right _ (named t team_id rank d) (name_all t team_id (suc rank) cs) (
        subst (λ n. In (row_of team_id team user n c) (name_all t team_id (suc rank) cs))
          (omega arith) (name_all-In (suc rank) place cs c team user e has_team has_user))
