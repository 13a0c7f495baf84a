-- ===== src/Persistence/Users/Admins.antt =====
-- What `GrantAdmin` of internal/infrastructure/persistence/user.go leaves.
use task_tracker.Base.{
  suc, ◌≡◌, ◌≢◌, refl, sym, ap, Bool, true, false, some, List, [], ◌∷◌, map, Text, find?,
  if◌then◌else◌, Bool-cases, Option-cases, inl, inr, ◌⊎◌, arith,
}
use mathlib.Core.Path.{ap₂}
use task_tracker.Tx.{ok}
use task_tracker.Domain.{User, Role, user, global_admin}
use task_tracker.Store.{Env, World, Tables}
use task_tracker.Persistence.Users.{find_email, promote, needs_change, grant_admin, by_email}

-- One round of `needs_change` that finds no row to change.
unchanged :
    (same : Bool) (r : Role) (rest : Bool)
    → (if same then elim r [ user ↦ true | global_admin ↦ rest ] else rest) ≡ false
    → (same ≡ true → r ≡ global_admin) × (rest ≡ false)
unchanged true user rest h = cc
unchanged true global_admin rest h = ((λ e. refl), h)
unchanged false r rest h = ((λ e. cc), h)

module _ (env : Env) (email : Text) where
  needs_change-find :
      (users : List User)
      → needs_change env email users ≡ true
      → (u : User) × (find? (λ u. env.same_email u.email email) users ≡ some u)
  unfolding needs_change
  needs_change-find [] h = cc
  needs_change-find (u ∷ users) h = elim (Bool-cases (env.same_email u.email email)) [
    | inl same ↦ (u, rw same refl)
    | inr other ↦ let (v, found) = needs_change-find users (ground arith) in (v, rw other found)
  ]

  find-promoted :
      (users : List User) (u : User)
      → find? (λ u. env.same_email u.email email) users ≡ some u
      → (v : User) × (v.role ≡ global_admin)
        × (find? (λ u. env.same_email u.email email) (map (promote env email) users) ≡ some v)
  find-promoted [] u h = cc
  find-promoted (x ∷ users) u h = elim (Bool-cases (env.same_email x.email email)) [
    | inl same ↦ (record x { role = global_admin }, refl, rw same (rw same refl))
    | inr other ↦
        let (v, admin, found) = find-promoted users u (ground arith) in
        (v, admin, rw other (rw other found))
  ]

  promote-same :
      (u : User)
      → (env.same_email u.email email ≡ true → u.role ≡ global_admin)
      → promote env email u ≡ u
  promote-same u admin = elim (Bool-cases (env.same_email u.email email)) [
    | inl same ↦ rw same (ap (λ r. record u { role = r }) (sym (admin same)))
    | inr other ↦ rw other refl
  ]

  needs_change-same :
      (users : List User)
      → needs_change env email users ≡ false
      → map (promote env email) users ≡ users
  unfolding needs_change
  needs_change-same [] h = refl
  needs_change-same (u ∷ users) h =
      let (admin, rest) =
        unchanged (env.same_email u.email email) u.role (needs_change env email users) h in
      ap₂ (λ v vs. v ∷ vs) (promote-same u admin) (needs_change-same users rest)

  -- The user is an admin now, and nothing else has changed.
  abbrev pub IsGranted : Tables → Tables → Type 0
  IsGranted before after =
      (u : User) × (find_email env email after ≡ some u)
      × (u.role ≡ global_admin)
      × (after ≡ record before { users = map (promote env email) before.users })

  -- It succeeds, or nothing has changed.
  pub grant_admin-IsGranted :
      (w : World)
      → (((grant_admin env email w).0 ≡ ok tt)
          × IsGranted w.tables (grant_admin env email w).1.tables)
        ⊎ (((grant_admin env email w).0 ≢ ok tt) × ((grant_admin env email w).1.tables ≡ w.tables))
  unfolding grant_admin by_email
  grant_admin-IsGranted w = elim (Bool-cases (env.fails w.sent)) [
    | inl down ↦ rw down (inr ((λ e. cc), refl))
    | inr up ↦ elim (Bool-cases (needs_change env email w.tables.users)) [
      | inl changes ↦
          let (u, found) = needs_change-find w.tables.users changes in
          let (v, admin, promoted) = find-promoted w.tables.users u found in
          rw (up, changes) (inl (refl, (v, promoted, admin, refl)))
      | inr idle ↦
          let same = needs_change-same w.tables.users idle in
          let kept : record w.tables { users = map (promote env email) w.tables.users } ≡ w.tables =
            ap (λ us. record w.tables { users = us }) same in
          elim (Bool-cases (env.fails (suc w.sent))) [
            | inl down ↦ rw (up, idle, down) (inr ((λ e. cc), kept))
            | inr still_up ↦ elim (Option-cases (find_email env email w.tables)) [
              | inl unknown ↦ rw (up, idle, still_up, same, unknown) (inr ((λ e. cc), refl))
              | inr (u, found) ↦
                  let (v, admin, promoted) = find-promoted w.tables.users u found in
                  rw (up, idle, still_up, promoted) (inl (refl, (v, promoted, admin, refl)))
            ]
          ]
    ]
  ]
