-- ===== src/Service/Teams/Safety.antt =====
-- What a call of internal/service/teams.go guarantees: who may make it, and what it leaves.
use task_tracker.Base.{
  ℕ, suc, ◌≡◌, refl, sym, ap, ◌∙◌, none, some, [], ◌∷◌, ◌++◌, Text, Option-cases, ◌⊎◌, inl, inr,
  arith,
}
use task_tracker.Tx.{ok, ◌>>=◌, ◌>>◌, bind-ok}
use task_tracker.Domain.{User, TeamRole, member, admin}
use task_tracker.Outbox.Table.{enqueue}
use task_tracker.Store.{Env, Db, World, Tables, Transactions, counted, find_member, query_row-ok}
use task_tracker.Store.Undone.{Undone, Undone-from, read_then-Goes, tx-Goes}
use task_tracker.Persistence.Users
use task_tracker.Persistence.Users.{find_email}
use task_tracker.Persistence.Teams
use task_tracker.Persistence.Messages
use task_tracker.Service.Authorizer.{require_team_role}
use task_tracker.Service.Authorizer.Access.{
  MayAct, require_team_role-MayAct, require_team_role-reads,
}
use task_tracker.Service.Teams.{invitation, invite}

abbrev pub with_member : ℕ → ℕ → TeamRole → Tables → Tables
with_member team_id user_id role t = record t {
  members = t.members ++ record { team_id = team_id; user_id = user_id; role = role } ∷ [];
}

module _ (env : Env) where
  pub add_member-ok :
      (team_id user_id : ℕ) (role : TeamRole) (w : World)
      → (Teams.add_member env team_id user_id role w).0 ≡ ok tt
      → (find_member team_id user_id w.tables ≡ none)
        × ((Teams.add_member env team_id user_id role w).1
            ≡ record (counted w) { tables = with_member team_id user_id role w.tables })
  unfolding Teams.add_member
  add_member-ok team_id user_id role w h =
      elim (Option-cases (find_member team_id user_id w.tables)) [
        | inl new ↦ (new, ground arith)
        | inr found ↦ ground arith
      ]

  -- The tables with the invitation's row, which the statement `n` writes.
  abbrev pub with_invitation : Text → ℕ → ℕ → ℕ → Tables → Tables
  with_invitation email team_id n id t = record t {
    outbox = enqueue (env.time n) id (invitation email team_id) t.outbox;
  }

  enqueue-ok :
      (email : Text) (team_id : ℕ) (w : World)
      → (Messages.enqueue env (invitation email team_id) w).0 ≡ ok tt
      → (Messages.enqueue env (invitation email team_id) w).1.tables
        ≡ with_invitation email team_id (suc w.sent) w.counters.next_message w.tables
  unfolding Messages.enqueue
  enqueue-ok email team_id w h = ground arith

  -- What a successful invitation has found and done.
  pub record Invited (actor_id team_id : ℕ) (email : Text) (w : World) (after : Tables)
      : Type 0 where
    pub may_act : MayAct w.tables actor_id team_id admin
    pub invitee : User
    pub has_invitee : find_email env email w.tables ≡ some invitee
    pub is_new : find_member team_id invitee.id w.tables ≡ none
    pub statement : ℕ
    pub message_id : ℕ
    pub stored :
        after
        ≡ with_invitation email team_id statement message_id
            (with_member team_id invitee.id member w.tables)

  -- The body of the transaction of `Invite`.
  abbrev join : ℕ → Text → User → Db (Unit {0})
  join team_id email invitee =
      Teams.add_member env team_id invitee.id member
      >> Messages.enqueue env (invitation email team_id)

  join-ok :
      (team_id : ℕ) (email : Text) (invitee : User) (w : World)
      → (join team_id email invitee w).0 ≡ ok tt
      → (find_member team_id invitee.id w.tables ≡ none)
        × ((join team_id email invitee w).1.tables
            ≡ with_invitation email team_id
                (suc (suc w.sent))
                w.counters.next_message
                (with_member team_id invitee.id member w.tables))
  join-ok team_id email invitee w h =
      let add = Teams.add_member env team_id invitee.id member in
      let (_, added, more, e) =
        bind-ok add (λ _. Messages.enqueue env (invitation email team_id)) w tt h in
      let (new, stored) = add_member-ok team_id invitee.id member w added in
      (
        new,
        ap (λ p. p.1.tables) e
            ∙ enqueue-ok email team_id (add w).1 more
            ∙ ap (λ v. with_invitation email team_id (suc v.sent) v.counters.next_message v.tables)
                stored,
      )

  module _ (tx : Transactions) where
    open tx use {do_tx}

    -- An invitation either succeeds, or leaves every table as it was and does not succeed. When it
    -- succeeds, the actor is an admin or has at least the role admin in the team, the address
    -- belongs to a user who had no role in the team, and the tables have gained that user as a
    -- member of the team and the pending message of the invitation to that address, and nothing
    -- else.
    pub invite-Invited :
        (actor_id team_id : ℕ) (email : Text) (w : World)
        → (((invite env tx actor_id team_id email w).0 ≡ ok tt)
            × Invited actor_id team_id email w (invite env tx actor_id team_id email w).1.tables)
          ⊎ Undone w (invite env tx actor_id team_id email w)
    unfolding invite Users.by_email
    invite-Invited actor_id team_id email w =
        let role = require_team_role env actor_id team_id admin in
        let body : User → Db (Unit {0}) = λ u. do_tx (join team_id email u) in
        let w₁ = (role w).1 in
        let same₁ = require_team_role-reads env actor_id team_id admin w in
        elim (read_then-Goes role (λ _. Users.by_email env email >>= body) w same₁) [
          | inr undone ↦ inr undone
          | inl (_, passed, e₁) ↦ elim (read_then-Goes (Users.by_email env email) body w₁ refl) [
            | inr undone ↦ inr (Undone-from w w₁ _ _ e₁ same₁ undone)
            | inl (u, found, e₂) ↦ elim (tx-Goes tx (join team_id email u) (counted w₁)) [
              | inr undone ↦ inr (Undone-from w (counted w₁) _ _ (e₁ ∙ e₂) same₁ undone)
              | inl (_, done, e₃) ↦
                  let (new, stored) = join-ok team_id email u (counted w₁) done in
                  let e = e₁ ∙ e₂ ∙ e₃ in
                  inl (
                    ap (λ p. p.0) e ∙ done,
                    record {
                      may_act = require_team_role-MayAct env actor_id team_id admin w passed;
                      invitee = u;
                      has_invitee =
                          ap (find_email env email) (sym same₁)
                          ∙ query_row-ok env (find_email env email) w₁ u found;
                      is_new = ap (find_member team_id u.id) (sym same₁) ∙ new;
                      statement = suc (suc (suc w₁.sent));
                      message_id = w₁.counters.next_message;
                      stored =
                          ap (λ p. p.1.tables) e
                          ∙ stored
                          ∙ ap
                              (λ ts.
                                with_invitation email team_id (suc (suc (suc w₁.sent)))
                                  w₁.counters.next_message (with_member team_id u.id member ts))
                              same₁;
                    },
                  )
            ]
          ]
        ]
