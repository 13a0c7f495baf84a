-- ===== src/Http/Kit.antt =====
-- internal/transport/http/httpkit/httpkit.go, and what a handler reads of its request and answers.
-- The JSON of a value is taken for the value. A handler returns as soon as it has answered, so it is
-- an action whose error is an answer.
use task_tracker.Base.{
  ℕ, Bool, Option, none, some, Text, ascii, if◌then◌else◌, ℤ, pos, negsuc, ◌-◌, ◌^◌, parse_int,
}
use task_tracker.Tx.{Outcome, ok, err, panicked, Action, pure, raise}
use task_tracker.Domain.{
  Error, not_found, forbidden, email_taken, invalid_credentials, already_member, not_team_member,
  internal,
}
use task_tracker.Store.{Db, World}
pub mod Gates

-- The status with a JSON value, with an `ErrorResponse`, or with no JSON body.
pub data Reply (A : Type 0) : Type 0 where
  json : ℕ → A → Reply A
  error : ℕ → Text → Reply A
  bare : ℕ → Reply A

abbrev pub status : {A : Type 0} → Reply A → ℕ
status (json code _) = code
status (error code _) = code
status (bare code) = code

-- What `json.Decoder.Decode` makes of the body: it ran past the limit, it is no JSON of the type, or a
-- value.
pub data Decoded (A : Type 0) : Type 0 where
  too_large malformed : Decoded A
  decoded : A → Decoded A

-- `identity.FromContext`, `chi.URLParam(r, "id")`, `r.URL.Query().Get`, the body, and whether
-- `r.Context().Err()` is set when an error is answered.
pub record Request (A : Type 0) : Type 0 where
  pub principal : Option ℕ
  pub url_id : Text
  pub query : Text → Text
  pub body : Decoded A
  pub ended : Bool

abbrev pub Handler : Type 0 → Type 0
Handler B = Action World (Reply B) (Reply B)

-- The `Error()` of the errors of internal/domain/errors.go.
abbrev pub error_text : Error → Text
error_text email_taken = ascii "email already taken"
error_text invalid_credentials = ascii "invalid credentials"
error_text not_found = ascii "not found"
error_text forbidden = ascii "forbidden"
error_text already_member = ascii "already a member"
error_text not_team_member = ascii "assignee is not a team member"
error_text internal = ascii "internal error"

-- `WriteInternalError`
abbrev pub write_internal_error : {B : Type 0} → Bool → Reply B
write_internal_error ended =
    if ended then error 499 (ascii "client closed request") else error 500 (ascii "internal error")

-- Every handler behind the authentication begins with this test.
abbrev pub principal_of : {B : Type 0} → Option ℕ → Action World (Reply B) ℕ
principal_of none = raise (error 401 (ascii "missing principal"))
principal_of (some user_id) = pure user_id

-- `DecodeJSON`
abbrev pub decode_json : {A B : Type 0} → Decoded A → Action World (Reply B) A
decode_json too_large = raise (error 413 (ascii "request body too large"))
decode_json malformed = raise (error 400 (ascii "invalid json"))
decode_json (decoded v) = pure v

-- `err` of `req.Validate()`; `none` is nil.
abbrev pub check : {B : Type 0} → Option Text → Action World (Reply B) (Unit {0})
check none = pure tt
check (some message) = raise (error 400 message)

-- An int64, by its two's complement: identifiers are only compared.
abbrev pub identifier : ℤ → ℕ
identifier (pos n) = n
identifier (negsuc n) = 2 ^ 64 - 1 - n

-- `strconv.ParseInt(chi.URLParam(r, "id"), 10, 64)`
abbrev pub url_number : {B : Type 0} → Text → Option ℤ → Action World (Reply B) ℕ
url_number message none = raise (error 400 message)
url_number message (some n) = pure (identifier n)

abbrev pub path_id : {B : Type 0} → Text → Text → Action World (Reply B) ℕ
path_id message s = url_number message (parse_int s)

-- The call of the service, and the switch on its error. A panic is not caught here.
abbrev pub switch :
    {A B : Type 0}
    → (A → Reply B)
    → (Error → Reply B)
    → Outcome Error A
    → Outcome (Reply B) (Reply B)
switch done failed (ok a) = ok (done a)
switch done failed (err e) = ok (failed e)
switch done failed panicked = panicked

abbrev pub answer : {A B : Type 0} → Db A → (A → Reply B) → (Error → Reply B) → Handler B
answer call done failed w = let (r, w') = call w in (switch done failed r, w')
