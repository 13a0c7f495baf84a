-- ===== src/Identity.antt =====
-- internal/identity: provider.go, whose tokens are signed and read by a third-party package, and
-- config.go. A principal is its user's identifier.
use task_tracker.Base.{
  ℕ, ◌+◌, ◌<◌, ◌^◌, ◌≡◌, Option, none, some, Text, ascii, decimal, arith, parse_int,
  parse_int-decimal,
}
use mathlib.Core.Option
use task_tracker.Http.Kit.{identifier}

abbrev pub issuer : Text
issuer = ascii "task-tracker"

abbrev pub audience : Text
audience = ascii "task-tracker-api"

-- `jwt.RegisteredClaims`, as far as the provider sets it.
pub record Claims : Type 0 where
  pub issuer : Text
  pub audience : Text
  pub subject : Text
  pub issued_at : ℕ
  pub expires_at : ℕ

-- The signing and reading of tokens with HS256 and a secret. `parse secret issuer audience now raw` has
-- the key function and the options of `Provider.Parse`.
pub record Jwt : Type 0 where
  pub numeric_date : ℕ → ℕ
  pub sign : Text → Claims → Option Text
  pub parse : Text → Text → Text → ℕ → Text → Option Claims

-- A token that was signed with the secret, for the same issuer and audience, is read back until it
-- expires.
abbrev pub Documented : Jwt → Type 0
Documented jwt =
    (secret raw : Text) (c : Claims) (now : ℕ)
    → jwt.sign secret c ≡ some raw
    → now < c.expires_at
    → jwt.parse secret c.issuer c.audience now raw ≡ some c

pub record Provider : Type 0 where
  pub secret : Text
  pub ttl : ℕ

abbrev subject_id : Option Claims → Option ℕ
subject_id none = none
subject_id (some c) = Option.map identifier (parse_int c.subject)

module _ (jwt : Jwt) (p : Provider) where
  -- `Provider.Issue`, at the time `now`
  unfoldable pub issue : ℕ → ℕ → Option Text
  issue now user_id = jwt.sign p.secret (record {
    issuer = issuer;
    audience = audience;
    subject = decimal user_id;
    issued_at = jwt.numeric_date now;
    expires_at = jwt.numeric_date (now + p.ttl);
  })

  -- `Provider.Parse`
  unfoldable pub parse : ℕ → Text → Option ℕ
  parse now raw = subject_id (jwt.parse p.secret issuer audience now raw)

  -- Whoever was issued a token is its principal until it expires.
  pub parse-issue :
      (then' now user_id : ℕ) (raw : Text)
      → Documented jwt
      → user_id < 2 ^ 63
      → issue then' user_id ≡ some raw
      → now < jwt.numeric_date (then' + p.ttl)
      → parse now raw ≡ some user_id
  unfolding issue parse
  parse-issue then' now user_id raw documented small issued fresh = ground (
    arith,
    parse_int-decimal user_id small,
    documented p.secret raw
        (record {
          issuer = issuer;
          audience = audience;
          subject = decimal user_id;
          issued_at = jwt.numeric_date then';
          expires_at = jwt.numeric_date (then' + p.ttl);
        })
        now issued fresh,
  )
