-- ===== src/Http/Auth.antt =====
-- internal/transport/http/auth: dto.go, auth.go and me.go.
use task_tracker.Base.{ℕ, Bool, Option, [], ◌∷◌, Text, ascii}
use task_tracker.Tx.{◌>>=◌, ◌>>◌}
use task_tracker.Domain.{
  Error, not_found, email_taken, invalid_credentials, Role, user, global_admin,
}
use task_tracker.Store.{Env}
use task_tracker.Service.Auth
use task_tracker.Service.Auth.{PublicUser, Credentials}
use task_tracker.Http.Kit.{
  Reply, json, error, Request, Handler, error_text, write_internal_error, principal_of, decode_json,
  check, answer,
}
use task_tracker.Http.Rules.{Rules}

pub record RegisterRequest : Type 0 where
  pub email : Text
  pub name : Text
  pub password : Text

pub record LoginRequest : Type 0 where
  pub email : Text
  pub password : Text

module _ (rules : Rules) where
  unfoldable pub validate_register : RegisterRequest → Option Text
  validate_register r = rules.validate_struct (
      (rules.required r.email ∷ rules.email_format r.email ∷ [])
      ∷ (rules.required r.name ∷ rules.length_in 1 255 r.name ∷ [])
      ∷ (rules.required r.password ∷ rules.length_in 8 72 r.password ∷ [])
      ∷ [])

  unfoldable pub validate_login : LoginRequest → Option Text
  validate_login r =
      rules.validate_struct ((rules.required r.email ∷ []) ∷ (rules.required r.password ∷ []) ∷ [])

pub record UserResponse : Type 0 where
  pub email : Text
  pub name : Text
  pub role : Text
  pub id : ℕ

pub record LoginResponse : Type 0 where
  pub access_token : Text

abbrev pub role_text : Role → Text
role_text user = ascii "user"
role_text global_admin = ascii "admin"

abbrev pub to_user_response : PublicUser → UserResponse
to_user_response u = record { id = u.id; email = u.email; name = u.name; role = role_text u.role }

abbrev pub register_failure : {B : Type 0} → Bool → Error → Reply B
register_failure ended email_taken = error 409 (error_text email_taken)
register_failure ended _ = write_internal_error ended

abbrev pub login_failure : {B : Type 0} → Bool → Error → Reply B
login_failure ended invalid_credentials = error 401 (error_text invalid_credentials)
login_failure ended _ = write_internal_error ended

abbrev pub me_failure : {B : Type 0} → Bool → Error → Reply B
me_failure ended not_found = error 401 (ascii "user no longer exists")
me_failure ended _ = write_internal_error ended

module _ (env : Env) (cred : Credentials) where
  -- `Me`
  unfoldable pub me : Request (Unit {0}) → Handler UserResponse
  me req = do
    user_id ← principal_of req.principal
    answer (Auth.user_by_id env cred user_id) (λ u. json 200 (to_user_response u))
        (me_failure req.ended)

  module _ (rules : Rules) where
    -- `registerHandler`
    unfoldable pub register_handler : Request RegisterRequest → Handler UserResponse
    register_handler req = do
      body ← decode_json req.body
      check (validate_register rules body)
      answer (Auth.register env cred body.email body.name body.password)
          (λ u. json 201 (to_user_response u)) (register_failure req.ended)

    -- `loginHandler`
    unfoldable pub login_handler : Request LoginRequest → Handler LoginResponse
    login_handler req = do
      body ← decode_json req.body
      check (validate_login rules body)
      answer (Auth.login env cred body.email body.password)
          (λ token. json 200 (record { access_token = token })) (login_failure req.ended)
