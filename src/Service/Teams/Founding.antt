-- ===== src/Service/Teams/Founding.antt =====
-- What `Create` of internal/service/teams.go leaves.
use task_tracker.Base.{ℕ, suc, ◌≡◌, sym, ap, ◌∙◌, [], ◌∷◌, ◌++◌, Text, ◌⊎◌, inl, inr, arith}
use task_tracker.Tx.{ok, ◌>>=◌, ◌>>◌, pure, bind-ok}
use task_tracker.Domain.{TeamMembership, owner}
use task_tracker.Store.{Env, Db, World, Tables, Transactions}
use task_tracker.Store.Undone.{Undone, tx_then-Goes}
use task_tracker.Persistence.Teams
use task_tracker.Service.Teams.{create}
use task_tracker.Service.Teams.Safety.{with_member, add_member-ok}

-- The tables with a new team.
abbrev pub with_team : ℕ → Text → ℕ → ℕ → Tables → Tables
with_team now name id creator t = record t {
  teams = t.teams ++ record { created_at = now; name = name; id = id; created_by = creator } ∷ [];
}

module _ (env : Env) where
  create-ok :
      (name : Text) (creator : ℕ) (w : World) (id : ℕ)
      → (Teams.create env name creator w).0 ≡ ok id
      → (id ≡ w.counters.next_team)
        × ((Teams.create env name creator w).1.tables
            ≡ with_team (env.time (suc w.sent)) name id creator w.tables)
  unfolding Teams.create
  create-ok name creator w id h = ground arith

  -- The body of the transaction of `Create`.
  abbrev found_team : ℕ → Text → Db ℕ
  found_team actor_id name =
      Teams.create env name actor_id >>= λ id. Teams.add_member env id actor_id owner >> pure id

  found_team-ok :
      (actor_id : ℕ) (name : Text) (w : World) (id : ℕ)
      → (found_team actor_id name w).0 ≡ ok id
      → (id ≡ w.counters.next_team)
        × ((found_team actor_id name w).1.tables
            ≡ with_member id actor_id owner
                (with_team (env.time (suc w.sent)) name id actor_id w.tables))
  found_team-ok actor_id name w id h =
      let insertion = Teams.create env name actor_id in
      let add : ℕ → Db (Unit {0}) = λ n. Teams.add_member env n actor_id owner in
      let (n, made, more, e) = bind-ok insertion (λ n. add n >> pure n) w id h in
      let (fresh, stored) = create-ok name actor_id w n made in
      let (_, added, last, e') = bind-ok (add n) (λ _. pure n) (insertion w).1 id more in
      let same_id : n ≡ id = cc in
      let (_, stored') = add_member-ok env n actor_id owner (insertion w).1 added in
      let final : ℕ → Tables = λ k.
        with_member k actor_id owner (with_team (env.time (suc w.sent)) name k actor_id w.tables) in
      (
        sym same_id ∙ fresh,
        ap (λ p. p.1.tables) (e ∙ e')
            ∙ ap (λ v. v.tables) stored'
            ∙ ap (with_member n actor_id owner) stored
            ∙ ap final same_id,
      )

  module _ (tx : Transactions) where
    open tx use {do_tx}

    -- A creation of a team either returns a membership, or leaves every table as it was and returns
    -- none. When it returns one, it names the new team with the role owner, its identifier is the
    -- next of the counter, and the tables have gained the team and its creator as the owner, and
    -- nothing else.
    pub create-owner :
        (actor_id : ℕ) (name : Text) (w : World)
        → ((id : ℕ) × ((create env tx actor_id name w).0
              ≡ ok (record { name = name; role = owner; id = id }))
            × (id ≡ w.counters.next_team)
            × ((create env tx actor_id name w).1.tables
                ≡ with_member id actor_id owner
                    (with_team (env.time (suc w.sent)) name id actor_id w.tables)))
          ⊎ Undone w (create env tx actor_id name w)
    unfolding create
    create-owner actor_id name w =
        let last : ℕ → Db TeamMembership =
          λ id. pure (record { name = name; role = owner; id = id }) in
        elim (tx_then-Goes tx (found_team actor_id name) last w) [
          | inr undone ↦ inr undone
          | inl (id, done, e) ↦
              let (fresh, stored) = found_team-ok actor_id name w id done in
              inl (id, ap (λ p. p.0) e, fresh, ap (λ p. p.1.tables) e ∙ stored)
        ]
