-- ===== src/Service/Auth/Login.antt =====
-- What `Login` of internal/service/auth.go tells its caller.
use task_tracker.Base.{◌≡◌, true, false, some, Text, Option-cases, inl, inr, arith}
use task_tracker.Tx.{ok, err}
use task_tracker.Domain.{User, invalid_credentials}
use task_tracker.Store.{Env, World}
use task_tracker.Persistence.Users
use task_tracker.Persistence.Users.{find_email}
use task_tracker.Service.Auth.{Credentials, login}

module _ (env : Env) (cred : Credentials) where
  -- If MySQL answers, and no user is found by the address or the password does not match the hash
  -- of the one who is, then a login ends with the error for invalid credentials, which is the same
  -- for both.
  pub login-invalid_credentials :
      (email password : Text) (w : World)
      → env.fails w.sent ≡ false
      → ((u : User)
          → find_email env email w.tables ≡ some u
          → cred.matches u.password_hash password ≡ false)
      → (login env cred email password w).0 ≡ err invalid_credentials
  unfolding Users.by_email
  login-invalid_credentials email password w up wrong =
      elim (Option-cases (find_email env email w.tables)) [
        | inl unknown ↦ ground arith
        | inr (u, found) ↦ let no = wrong u found in ground arith
      ]

  -- If a login returns a token, a user is found by the address, the password matches the hash of
  -- that user, the token is the one issued for the identifier of that user, and no table has
  -- changed.
  pub login-ok :
      (email password token : Text) (w : World)
      → (login env cred email password w).0 ≡ ok token
      → (u : User) × (find_email env email w.tables ≡ some u)
        × (cred.matches u.password_hash password ≡ true)
        × (cred.issue u.id ≡ some token)
        × ((login env cred email password w).1.tables ≡ w.tables)
  unfolding Users.by_email
  login-ok email password token w h = elim (Option-cases (find_email env email w.tables)) [
    | inl unknown ↦ ground arith
    | inr (u, found) ↦ (u, found, ground arith, ground arith, ground arith)
  ]
