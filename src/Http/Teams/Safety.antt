-- ===== src/Http/Teams/Safety.antt =====
-- What an answer of internal/transport/http/teams/teams.go says of the tables.
use task_tracker.Base.{Bool, ℕ, ◌≤◌, ◌≡◌, none, some, ascii, ◌⊎◌, inl, inr, ℤ, parse_int, arith}
use task_tracker.Tx.{Outcome, ok}
use task_tracker.Domain.{
  Error, email_taken, invalid_credentials, not_found, forbidden, already_member, not_team_member,
  internal,
}
use task_tracker.Store.{Env, World, Transactions}
use task_tracker.Service.Teams
use task_tracker.Service.Teams.Safety.{Invited, invite-Invited}
use task_tracker.Http.Kit.{Reply, bare, status, Request, decoded, identifier, answer}
use task_tracker.Http.Kit.Gates.{Refused, path_body_gates, answer_either}
use task_tracker.Http.Rules.{Rules}
use task_tracker.Http.Teams.{InviteRequest, validate_invite, invite_failure, invite_handler}

invite_failure-code :
    (ended : Bool) (e : Error) → 400 ≤ status (invite_failure {B = Unit {0}} ended e)
invite_failure-code ended not_found = omega arith
invite_failure-code ended forbidden = omega arith
invite_failure-code ended not_team_member = ground arith
invite_failure-code ended email_taken = ground arith
invite_failure-code ended invalid_credentials = ground arith
invite_failure-code ended already_member = omega arith
invite_failure-code ended internal = ground arith

module _ (env : Env) (tx : Transactions) (rules : Rules) where
  -- The request names its user and its team, and its body passes `Validate`.
  pub record Invites (req : Request InviteRequest) (w : World)
      (r : Outcome (Reply (Unit {0})) (Reply (Unit {0})) × World) : Type 0 where
    pub user_id : ℕ
    pub team_id : ℤ
    pub body : InviteRequest
    pub principal : req.principal ≡ some user_id
    pub in_path : parse_int req.url_id ≡ some team_id
    pub sent : req.body ≡ decoded body
    pub valid : validate_invite rules body ≡ none
    pub invited : Invited env user_id (identifier team_id) body.email w r.1.tables
    pub shown : r.0 ≡ ok (bare 204)

  -- A request to invite a user into a team either is answered with 204, or leaves every table as it
  -- was and ends in a panic or an answer of at least 400. When it is answered with 204, it names
  -- its user, its path names the team, its body passes the validation, that user is an admin or has
  -- at least the role admin in the team, the address belongs to a user who had no role in the team,
  -- and the tables have gained that user as a member of the team and the pending message of the
  -- invitation to that address, and nothing else.
  pub invite_handler-Invites :
      (req : Request InviteRequest) (w : World)
      → Invites req w (invite_handler env tx rules req w)
        ⊎ Refused w (invite_handler env tx rules req w)
  unfolding invite_handler
  invite_handler-Invites req w =
      path_body_gates (Invites req w) w req.principal (ascii "invalid team id") req.url_id req.body
        (validate_invite rules)
        (λ user_id team_id body.
          answer (Teams.invite env tx user_id team_id body.email) (λ _. bare 204)
            (invite_failure req.ended))
        λ user_id team_id body is_user is_team is_body is_valid.
          let id = identifier team_id in
          let call = Teams.invite env tx user_id id body.email in
          elim (answer_either (λ _. Invited env user_id id body.email w (call w).1.tables) call
            (λ _. bare 204) (invite_failure req.ended) w (invite_failure-code req.ended)
            (elim (invite-Invited env tx user_id id body.email w) [
              | inl (returned, invited) ↦ inl (tt, returned, invited)
              | inr undone ↦ inr undone
            ])) [
              | inl (_, shown, invited) ↦ inl (record {
                user_id = user_id;
                team_id = team_id;
                body = body;
                principal = is_user;
                in_path = is_team;
                sent = is_body;
                valid = is_valid;
                invited = invited;
                shown = shown;
              })
              | inr refused ↦ inr refused
            ]
