-- ===== src/Examples/Site.antt =====
-- A site of internal/transport/http: a codec for tokens, rules for the bodies, and the rest of its parts.
use task_tracker.Base.{
  ℕ, ◌≤◌, ◌≡◌, ◌≢◌, refl, sym, ap, ◌∙◌, Bool, true, false, Option, none, some, List, [], ◌∷◌, ◌++◌,
  Text, ascii, text_eq, text_eq_sound, length, take, drop, leb, ltb_ℤ, ℤ, pos, negsuc, ◌≤ℤ◌, All,
  In, ◌⊎◌, inl, inr, arith, ◌==◌, Bool-cases, if◌then◌else◌,
}
use task_tracker.Store.{rollback}
use task_tracker.Service.Auth.{Credentials}
use task_tracker.RateLimit.{rated, allow}
use task_tracker.Identity
use task_tracker.Identity.{Claims, Jwt, Provider}
use task_tracker.Http.Rules
use task_tracker.Http.Rules.{Rules, IsNil}
use task_tracker.Http.Middleware.{Net}
use task_tracker.Http.Router.{Site}
use task_tracker.Examples.World.{env}
use task_tracker.Examples.Data.{committing}

take-length : (a b : Text) → take (length a) (a ++ b) ≡ a
take-length [] b = refl
take-length (x ∷ a) b = ap (λ s. x ∷ s) (take-length a b)

drop-length : (a b : Text) → drop (length a) (a ++ b) ≡ b
drop-length [] b = refl
drop-length (x ∷ a) b = drop-length a b

-- A token lists the claims, each text after its length.
abbrev encode : Claims → Text
encode c =
    c.issued_at
    ∷ c.expires_at
    ∷ length c.issuer
    ∷ (c.issuer ++ (length c.audience ∷ (c.audience ++ c.subject)))

abbrev decode_rest : ℕ → ℕ → Text → Text → Option Claims
decode_rest i e issuer [] = none
decode_rest i e issuer (m ∷ rest) = some (record {
  issuer = issuer;
  audience = take m rest;
  subject = drop m rest;
  issued_at = i;
  expires_at = e;
})

abbrev decode : Text → Option Claims
decode (i ∷ e ∷ n ∷ rest) = decode_rest i e (take n rest) (drop n rest)
decode _ = none

abbrev pub jwt : Jwt
jwt = record {
  numeric_date = λ t. t;
  sign = λ secret c. some (encode c);
  parse = λ secret issuer audience now raw. decode raw;
}

decode-encode : (c : Claims) → decode (encode c) ≡ some c
decode-encode c =
    let tail = length c.audience ∷ (c.audience ++ c.subject) in
    rw
      (
        take-length c.issuer tail,
        drop-length c.issuer tail,
        take-length c.audience c.subject,
        drop-length c.audience c.subject,
      )
      refl

pub jwt-Documented : Identity.Documented jwt
jwt-Documented secret raw c now signed fresh =
    let same : encode c ≡ raw = cc signed in ap decode (sym same) ∙ decode-encode c

abbrev pub provider : Provider
provider = record { secret = ascii "secret"; ttl = 100 }

abbrev unless : Bool → Option Text
unless true = none
unless false = some (ascii "invalid")

abbrev nonempty : Text → Bool
nonempty [] = false
nonempty (_ ∷ _) = true

abbrev one_of : List Text → Text → Bool
one_of [] s = false
one_of (t ∷ ts) s = if text_eq s t then true else one_of ts s

abbrev first_error : List (Option Text) → Option Text
first_error [] = none
first_error (none ∷ es) = first_error es
first_error (some e ∷ es) = some e

abbrev struct_error : List (List (Option Text)) → Option Text
struct_error [] = none
struct_error (f ∷ fs) = first_error (first_error f ∷ struct_error fs ∷ [])

abbrev pub rules : Rules
rules = record {
  required = λ s. unless (nonempty s);
  required_int = λ n. unless (ltb_ℤ (pos 0) n);
  min_int = λ lo n. if ltb_ℤ n lo then some (ascii "too small") else none;
  length_in = λ lo hi s.
      if nonempty s
      then (if leb lo (length s) then unless (leb (length s) hi) else some (ascii "short"))
      else none;
  one_of = λ ts s. if nonempty s then unless (one_of ts s) else none;
  email_format = λ s. none;
  validate_struct = struct_error;
}

one_of_sound : (ts : List Text) (s : Text) → one_of ts s ≡ true → In s ts
one_of_sound [] s h = cc
one_of_sound (t ∷ ts) s h = elim (Bool-cases (text_eq s t)) [
  | inl same ↦ inl (sym (text_eq_sound s t same))
  | inr other ↦ inr (one_of_sound ts s (rw other at h))
]

first_error_sound : (es : List (Option Text)) → first_error es ≡ none → All IsNil es
first_error_sound [] h = tt
first_error_sound (none ∷ es) h = (refl, first_error_sound es h)
first_error_sound (some e ∷ es) h = cc

struct_error_sound : (fs : List (List (Option Text))) → struct_error fs ≡ none → All (All IsNil) fs
struct_error_sound [] h = tt
struct_error_sound (f ∷ fs) h =
    let (here, (there, _)) = first_error_sound (first_error f ∷ struct_error fs ∷ []) h in
    (first_error_sound f here, struct_error_sound fs there)

min_int-le : (lo n : ℤ) → rules.min_int lo n ≡ none → lo ≤ℤ n
min_int-le (pos a) (pos b) h = ground arith
min_int-le (pos a) (negsuc b) h = ground arith
min_int-le (negsuc a) (pos b) h = ground arith
min_int-le (negsuc a) (negsuc b) h = ground arith

length_in-le :
    (lo hi : ℕ) (s : Text)
    → rules.length_in lo hi s ≡ none
    → (s ≡ []) ⊎ ((lo ≤ length s) × (length s ≤ hi))
length_in-le lo hi [] h = inl refl
length_in-le lo hi (b ∷ s) h = inr (ground arith)

unless-none : (b : Bool) → unless b ≡ none → b ≡ true
unless-none true h = refl
unless-none false h = cc

one_of-In : (ts : List Text) (s : Text) → rules.one_of ts s ≡ none → (s ≡ []) ⊎ In s ts
one_of-In ts [] h = inl refl
one_of-In ts (b ∷ s) h = inr (one_of_sound ts (b ∷ s) (unless-none (one_of ts (b ∷ s)) h))

required_ne : (s : Text) → rules.required s ≡ none → s ≢ []
required_ne [] h = cc
required_ne (b ∷ s) h = λ e. cc

pub rules-Documented : Rules.Documented rules
rules-Documented = record {
  required_ne = required_ne;
  min_int-le = min_int-le;
  length_in-le = length_in-le;
  one_of-In = one_of-In;
  every_rule = struct_error_sound;
}

abbrev pub net : Net
net = record {
  Ip = ℕ;
  Range = ℕ;
  split_host = λ a. some a;
  parse_ip = λ t. none;
  range_contains = λ n ip. n == ip;
}

abbrev pub cred : Credentials
cred = record {
  hash = λ p. some p;
  matches = λ h p. text_eq h p;
  issue = Identity.issue jwt provider 0;
}

abbrev pub site : Site
site = record {
  env = env;
  tx = committing rollback;
  cred = cred;
  rules = rules;
  week_ago = λ n. n;
  month_ago = λ n. n;
  parse = Identity.parse jwt provider 10;
  user_limiter = allow (λ key. rated 1 0);
  ip_limiter = allow (λ key. rated 1 0);
  net = net;
  trusted = [];
}
