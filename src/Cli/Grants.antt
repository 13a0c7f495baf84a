-- ===== src/Cli/Grants.antt =====
-- What `grant-admin` of cmd/cli/main.go leaves.
use task_tracker.Base.{
  ℕ, zero, suc, ◌≡◌, ◌≢◌, refl, ap, Option, none, some, List, [], ◌∷◌, Text, ascii, text_eq,
  if◌then◌else◌, Bool-cases, Option-cases, inl, inr, ◌⊎◌,
}
use task_tracker.Tx.{Outcome, ok, err, panicked}
use task_tracker.Domain.{Error}
use task_tracker.Store.{Env, World}
use task_tracker.Persistence.Users.Admins.{IsGranted, grant_admin-IsGranted}
use task_tracker.Service.Auth.{Credentials}
use task_tracker.Config
use task_tracker.Config.{AppConfig, ConfigIssue}
use task_tracker.App.Ending.{IsAccepted}
use task_tracker.Cli.Flags.{Parse, exits, parsed, parse}
use task_tracker.Cli.{
  Setup, code_of, built, build_auth_service, with_flags, grant_admin_command, cli,
}

-- What the arguments ask for.
abbrev pub asked : List Text → Parse
asked [] = exits 2
asked (command ∷ args) = if text_eq command (ascii "grant-admin") then parse [] args else exits 2

built-none :
    (issue : Option ConfigIssue) (opening : Option Text) → built issue opening ≡ none → issue ≡ none
built-none none opening h = refl
built-none (some e) opening h = cc

code_of-0 : (r : Outcome Error (Unit {0})) → code_of r ≡ 0 → r ≡ ok tt
code_of-0 (ok tt) h = refl
code_of-0 (err e) h = cc
code_of-0 panicked h = cc

module _ {Range : Type 0} (parse_cidr : Text → Option Range) where
  build_auth_service-IsAccepted :
      (read : Option AppConfig) (opening : Option Text)
      → build_auth_service parse_cidr read opening ≡ none
      → IsAccepted parse_cidr read
  build_auth_service-IsAccepted none opening h = cc
  build_auth_service-IsAccepted (some cfg) opening h =
      built-none (Config.validate parse_cidr cfg) opening h

  module _ (env : Env) (cred : Credentials) where
    -- The exit code is zero and the user is an admin, or no table has changed; then the exit code
    -- is not zero, or help was asked for.
    abbrev pub GrantEnds : Setup → Parse → World → ℕ × World → Type 0
    GrantEnds s p w done =
        ((done.0 ≡ 0)
          × (email : Text) × (p ≡ parsed email)
          × IsAccepted parse_cidr s.read
          × IsGranted env email w.tables done.1.tables)
        ⊎ ((done.1.tables ≡ w.tables) × ((done.0 ≢ 0) ⊎ (p ≡ exits 0)))

    with_flags-GrantEnds :
        (s : Setup) (p : Parse) (w : World) → GrantEnds s p w (with_flags parse_cidr env cred s p w)
    with_flags-GrantEnds s (exits zero) w = inr (refl, inr refl)
    with_flags-GrantEnds s (exits (suc n)) w = inr (refl, inl (λ e. cc))
    with_flags-GrantEnds s (parsed []) w = inr (refl, inl (λ e. cc))
    with_flags-GrantEnds s (parsed (b ∷ email)) w =
        elim (Option-cases (build_auth_service parse_cidr s.read s.open_mysql)) [
          | inr (e, refused) ↦ rw refused (inr (refl, inl (λ h. cc)))
          | inl there ↦
              let accepted = build_auth_service-IsAccepted s.read s.open_mysql there in
              elim (grant_admin-IsGranted env (b ∷ email) w) [
                | inl (done, g) ↦ rw there (inl (ap code_of done, b ∷ email, refl, accepted, g))
                | inr (failed, same) ↦ rw there (inr (same, inl (λ h. failed (code_of-0 _ h))))
              ]
        ]

    -- The admin command ends in one of two ways. Either its exit code is zero, its arguments name
    -- an address, the configuration is accepted, the user found by that address is an admin, and
    -- the tables are as they were but for the role of the users with that address; or the tables
    -- are as they were, and then the exit code is not zero or the arguments ask for help.
    pub cli-GrantEnds :
        (s : Setup) (args : List Text) (w : World)
        → GrantEnds s (asked args) w (cli parse_cidr env cred s args w)
    unfolding cli grant_admin_command
    cli-GrantEnds s [] w = inr (refl, inl (λ e. cc))
    cli-GrantEnds s (command ∷ args) w = elim (Bool-cases (text_eq command (ascii "grant-admin"))) [
      | inl grants ↦ rw grants (with_flags-GrantEnds s (parse [] args) w)
      | inr other ↦ rw other (inr (refl, inl (λ e. cc)))
    ]
