-- ===== src/Service/Authorizer/Access.antt =====
-- Who passes the authorizer.
use task_tracker.Base.{
  ℕ, ◌≡◌, refl, ap, ◌∙◌, Bool, true, false, some, Bool-cases, option-map-some, ◌⊎◌, inl, inr, arith,
  if◌then◌else◌,
}
use mathlib.Core.Option
use task_tracker.Tx.{ok, pure, raise, bind-ok}
use task_tracker.Domain.{TeamRole, at_least, User, forbidden}
use task_tracker.Store.{Env, World, Tables, Member, counted, find_user, find_member, query_row-ok}
use task_tracker.Persistence.Users
use task_tracker.Persistence.Teams
use task_tracker.Service.Authorizer.{is_admin, require_admin, require_team_role}

-- The actor is a global admin, or has a role of at least this rank in the team.
abbrev pub MayAct : Tables → ℕ → ℕ → TeamRole → Type 0
MayAct t actor_id team_id least =
    (u : User) × (find_user actor_id t ≡ some u)
    × ((is_admin u ≡ true)
        ⊎ ((m : Member) × (find_member team_id actor_id t ≡ some m)
            × (at_least m.role least ≡ true)))

-- A test that ends a chain without an error has passed.
pub allowed :
    (b : Bool) (w : World) → ((if b then pure tt else raise forbidden) w).0 ≡ ok tt → b ≡ true
allowed true w h = refl
allowed false w h = cc

module _ (env : Env) (actor_id : ℕ) where
  pub require_team_role-reads :
      (team_id : ℕ) (least : TeamRole) (w : World)
      → (require_team_role env actor_id team_id least w).1.tables ≡ w.tables
  unfolding require_team_role Users.by_id Teams.member_role
  require_team_role-reads team_id least w = ground arith

  pub require_team_role-keeps_redis :
      (team_id : ℕ) (least : TeamRole) (w : World)
      → (require_team_role env actor_id team_id least w).1.redis ≡ w.redis
  unfolding require_team_role Users.by_id Teams.member_role
  require_team_role-keeps_redis team_id least w = ground arith

  pub require_admin-reads : (w : World) → (require_admin env actor_id w).1.tables ≡ w.tables
  unfolding require_admin Users.by_id
  require_admin-reads w = ground arith

  -- If the test for a role in a team passes, the actor is a user who is an admin, or who has a role
  -- in the team of at least the rank asked for.
  pub require_team_role-MayAct :
      (team_id : ℕ) (least : TeamRole) (w : World)
      → (require_team_role env actor_id team_id least w).0 ≡ ok tt
      → MayAct w.tables actor_id team_id least
  unfolding require_team_role Users.by_id Teams.member_role
  require_team_role-MayAct team_id least w h =
      let (u, found, goes_on, rest) = bind-ok (Users.by_id env actor_id) _ w tt h in
      let u_found = query_row-ok env (find_user actor_id) w u found in
      elim (Bool-cases (is_admin u)) [
        | inl top ↦ (u, u_found, inl top)
        | inr plain ↦
            let ranked = rw plain at goes_on in
            let (role, got, last, _) =
              bind-ok (Teams.member_role env team_id actor_id) _ (counted w) tt ranked in
            let (m, m_found, its_role) = option-map-some _ _ role (
              query_row-ok env (λ t. Option.map (λ m. m.role) (find_member team_id actor_id t))
                (counted w) role got) in
            let tested = allowed (at_least role least) (counted (counted w)) last in
            (u, u_found, inr (m, m_found, ap (λ r. at_least r least) its_role ∙ tested))
      ]

  -- If MySQL answers every statement, and the actor is a user who is an admin or who has a role in
  -- the team of at least the rank asked for, then the test for the role passes.
  pub MayAct-require_team_role :
      (team_id : ℕ) (least : TeamRole) (w : World)
      → ((n : ℕ) → env.fails n ≡ false)
      → MayAct w.tables actor_id team_id least
      → (require_team_role env actor_id team_id least w).0 ≡ ok tt
  unfolding require_team_role Users.by_id Teams.member_role
  MayAct-require_team_role team_id least w up (u, found, inl top) = simp (up, found, top)
  MayAct-require_team_role team_id least w up (u, found, inr (m, m_found, ranked)) =
      elim (Bool-cases (is_admin u)) [
        | inl top ↦ simp (up, found, top)
        | inr plain ↦ simp (up, found, plain, m_found, ranked)
      ]

  pub require_admin-ok :
      (w : World)
      → (require_admin env actor_id w).0 ≡ ok tt
      → (u : User) × (find_user actor_id w.tables ≡ some u) × (is_admin u ≡ true)
  unfolding require_admin Users.by_id
  require_admin-ok w h =
      let (u, found, more, e) = bind-ok (Users.by_id env actor_id) _ w tt h in
      (u, query_row-ok env (find_user actor_id) w u found, allowed (is_admin u) (counted w) more)
