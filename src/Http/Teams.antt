-- ===== src/Http/Teams.antt =====
-- internal/transport/http/teams: dto.go and teams.go.
use task_tracker.Base.{ℕ, Bool, Option, none, some, List, [], ◌∷◌, Text, ascii, map}
use task_tracker.Tx.{Outcome, ok, err, ◌>>=◌, ◌>>◌}
use task_tracker.Domain.{
  Error, not_found, forbidden, already_member, TeamMembership, TeamRole, member, admin, owner,
}
use task_tracker.Store.{Env, Transactions}
use task_tracker.Service.Teams
use task_tracker.Http.Kit.{
  Reply, json, error, bare, Request, Handler, error_text, write_internal_error, principal_of,
  decode_json, check, path_id, answer,
}
use task_tracker.Http.Rules.{Rules}
pub mod Safety

pub record CreateTeamRequest : Type 0 where
  pub name : Text

pub record InviteRequest : Type 0 where
  pub email : Text

module _ (rules : Rules) where
  unfoldable pub validate_create : CreateTeamRequest → Option Text
  validate_create r =
      rules.validate_struct ((rules.required r.name ∷ rules.length_in 1 255 r.name ∷ []) ∷ [])

  unfoldable pub validate_invite : InviteRequest → Option Text
  validate_invite r =
      rules.validate_struct ((rules.required r.email ∷ rules.email_format r.email ∷ []) ∷ [])

pub record TeamResponse : Type 0 where
  pub name : Text
  pub role : Text
  pub id : ℕ

abbrev pub team_role_text : TeamRole → Text
team_role_text owner = ascii "owner"
team_role_text admin = ascii "admin"
team_role_text member = ascii "member"

abbrev pub to_team_response : TeamMembership → TeamResponse
to_team_response m = record { id = m.id; name = m.name; role = team_role_text m.role }

-- A team refers to its creator, so `Create` finds no such user.
abbrev pub create_failure : {B : Type 0} → Bool → Error → Reply B
create_failure ended not_found = error 401 (ascii "user no longer exists")
create_failure ended _ = write_internal_error ended

abbrev pub invite_failure : {B : Type 0} → Bool → Error → Reply B
invite_failure ended not_found = error 404 (error_text not_found)
invite_failure ended forbidden = error 403 (error_text forbidden)
invite_failure ended already_member = error 409 (error_text already_member)
invite_failure ended _ = write_internal_error ended

module _ (env : Env) (tx : Transactions) where
  -- `listHandler`
  unfoldable pub list_handler : Request (Unit {0}) → Handler (List TeamResponse)
  list_handler req = do
    user_id ← principal_of req.principal
    answer (Teams.list env tx user_id) (λ memberships. json 200 (map to_team_response memberships))
        (λ _. write_internal_error req.ended)

  module _ (rules : Rules) where
    -- `createHandler`
    unfoldable pub create_handler : Request CreateTeamRequest → Handler TeamResponse
    create_handler req = do
      user_id ← principal_of req.principal
      body ← decode_json req.body
      check (validate_create rules body)
      answer (Teams.create env tx user_id body.name) (λ m. json 201 (to_team_response m))
          (create_failure req.ended)

    -- `inviteHandler`
    unfoldable pub invite_handler : Request InviteRequest → Handler (Unit {0})
    invite_handler req = do
      user_id ← principal_of req.principal
      team_id ← path_id (ascii "invalid team id") req.url_id
      body ← decode_json req.body
      check (validate_invite rules body)
      answer (Teams.invite env tx user_id team_id body.email) (λ _. bare 204)
          (invite_failure req.ended)
