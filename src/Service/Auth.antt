-- ===== src/Service/Auth.antt =====
-- internal/service/auth.go. The password hash of bcrypt and the token issuer are parameters.
pub mod Login
use task_tracker.Base.{ℕ, Bool, Option, none, some, Text, if◌then◌else◌}
use task_tracker.Tx.{ok, err, panicked, ◌>>=◌, pure, raise}
use task_tracker.Domain.{Error, Role, user, not_found, invalid_credentials, internal}
use task_tracker.Store.{Env, Db}
use task_tracker.Persistence.Users

-- `service.User`, what the API shows of a user.
pub record PublicUser : Type 0 where
  pub email : Text
  pub name : Text
  pub role : Role
  pub id : ℕ

-- bcrypt and the issuer: `none` is an error.
pub record Credentials : Type 0 where
  pub hash : Text → Option Text
  pub matches : Text → Text → Bool
  pub issue : ℕ → Option Text

abbrev or_internal : {A : Type 0} → Option A → Db A
or_internal none = raise internal
or_internal (some a) = pure a

-- `errors.Is(err, domain.ErrNotFound)` becomes `ErrInvalidCredentials`.
abbrev hide_missing : Error → Error
hide_missing not_found = invalid_credentials
hide_missing e = e

abbrev pub map_error : {A : Type 0} → (Error → Error) → Db A → Db A
map_error f m w =
    let (r, w') = m w in
    elim r [ ok a ↦ (ok a, w') | err e ↦ (err (f e), w') | panicked ↦ (panicked, w') ]

module _ (env : Env) (cred : Credentials) where
  -- `Register`
  abbrev pub register : Text → Text → Text → Db PublicUser
  register email name password = do
    hash ← or_internal (cred.hash password)
    id ← Users.create env (record {
      created_at = 0;
      email = email;
      name = name;
      password_hash = hash;
      role = user;
      id = 0;
    })
    pure (record { email = email; name = name; role = user; id = id })

  -- `UserByID`
  abbrev pub user_by_id : ℕ → Db PublicUser
  user_by_id id = do
    u ← Users.by_id env id
    pure (record { email = u.email; name = u.name; role = u.role; id = u.id })

  -- `GrantAdmin`
  abbrev pub grant_admin : Text → Db (Unit {0})
  grant_admin email = Users.grant_admin env email

  -- `Login`: an unknown address and a wrong password give the same error.
  abbrev pub login : Text → Text → Db Text
  login email password = do
    u ← map_error hide_missing (Users.by_email env email)
    if cred.matches u.password_hash password
        then or_internal (cred.issue u.id)
        else raise invalid_credentials
