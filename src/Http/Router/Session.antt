-- ===== src/Http/Router/Session.antt =====
-- A token of `Auth.Login` (internal/service/auth.go) at the API of internal/transport/http/router.go.
use task_tracker.Base.{
  ℕ, ◌+◌, ◌<◌, ◌^◌, ◌≡◌, ◌≢◌, refl, sym, ap, ◌∙◌, true, Option, some, [], ◌∷◌, ◌++◌, Text, ascii,
  ◌⊎◌, inl, inr, arith,
}
use task_tracker.Tx.{Outcome, ok, err}
use task_tracker.Domain.{User}
use task_tracker.Store.{World}
use task_tracker.Persistence.Users.{find_email}
use task_tracker.Service.Auth.{login}
use task_tracker.Service.Auth.Login.{login-ok}
use task_tracker.Identity
use task_tracker.Identity.{Jwt, Provider, Documented, parse-issue}
use task_tracker.Http.Kit.{status}
use task_tracker.Http.Trim.{cut_prefix}
use task_tracker.Http.Middleware.{Served, serving, auth, bearer, rate_limit, user_key}
use task_tracker.Http.Middleware.Headers.{Answer}
use task_tracker.Http.Router.{
  Endpoint, Body, Site, HttpRequest, handler_request, authenticated, group_of, handler, api,
}
use task_tracker.Http.Router.Access.{reject_or_serve-cases}

cut_prefix-append_self : (p s : Text) → cut_prefix p (p ++ s) ≡ some s
unfolding cut_prefix
cut_prefix-append_self [] s = refl
cut_prefix-append_self (b ∷ p) s = ground (arith, cut_prefix-append_self p s)

bearer_read :
    {B : Type 0} (parse : Text → Option ℕ) (token : Text) (user_id : ℕ) (next : ℕ → Served B)
    (w : World)
    → token ≢ []
    → parse token ≡ some user_id
    → bearer parse (some token) next w ≡ next user_id w
bearer_read parse [] user_id next w some_text read = absurd (some_text refl)
bearer_read parse (b ∷ raw) user_id next w some_text read = rw read refl

-- The limiter of the users stopped the request, which was answered with 429.
abbrev pub Limited : {B : Type 0} → World → Outcome (Answer B) (Answer B) × World → Type 0
Limited {B} w r = (a : Answer B) × (r ≡ (err a, w)) × (status a.reply ≡ 429)

module _ (s : Site) where
  api_of :
      (e : Endpoint) (r : HttpRequest (Body e)) (w : World) (token : Text) (user_id : ℕ)
      → group_of e ≡ authenticated
      → r.authorization ≡ ascii "Bearer " ++ token
      → token ≢ []
      → s.parse token ≡ some user_id
      → (api s e r w ≡ serving (handler s e (handler_request (some user_id) r)) w)
        ⊎ Limited w (api s e r w)
  unfolding api auth rate_limit
  api_of e r w token user_id grouped header some_text read =
      let h = handler s e in
      let next = λ (id : ℕ).
        rate_limit s.user_limiter (some id) (serving (h (handler_request (some id) r))) in
      let found : cut_prefix (ascii "Bearer ") r.authorization ≡ some token =
        ap (cut_prefix (ascii "Bearer ")) header ∙ cut_prefix-append_self (ascii "Bearer ") token in
      let on : bearer s.parse (cut_prefix (ascii "Bearer ") r.authorization) next w
          ≡ next user_id w =
        ap (λ o. bearer s.parse o next w) found
        ∙ bearer_read s.parse token user_id next w some_text read in
      rw grouped
        (elim (reject_or_serve-cases (s.user_limiter (user_key user_id))
          (serving (h (handler_request (some user_id) r))) w) [
            | inl (_, same) ↦ inl (on ∙ same)
            | inr (a, stopped, code, _) ↦ inr (a, on ∙ stopped, code)
          ])

  -- Assume that the token library reads back what it has signed until it expires, that the site
  -- issues tokens with a provider and reads them with the same one, and that the identifiers of the
  -- users found by an address are int64 values. If a login has returned a token that is not empty,
  -- the token has not expired, and it stands as a bearer token in a request at an endpoint that
  -- needs authentication, then a user is found by the address, the password matches the hash of
  -- that user, and the request reaches its handler as that user, unless the limiter answers it with
  -- 429.
  pub login-session :
      (jwt : Jwt) (p : Provider) (then' now : ℕ) (email password token : Text) (w : World)
      (e : Endpoint) (r : HttpRequest (Body e)) (w' : World)
      → Documented jwt
      → s.cred.issue ≡ Identity.issue jwt p then'
      → s.parse ≡ Identity.parse jwt p now
      → ((u : User) → find_email s.env email w.tables ≡ some u → u.id < 2 ^ 63)
      → (login s.env s.cred email password w).0 ≡ ok token
      → token ≢ []
      → now < jwt.numeric_date (then' + p.ttl)
      → group_of e ≡ authenticated
      → r.authorization ≡ ascii "Bearer " ++ token
      → (u : User) × (find_email s.env email w.tables ≡ some u)
        × (s.cred.matches u.password_hash password ≡ true)
        × ((api s e r w' ≡ serving (handler s e (handler_request (some u.id) r)) w')
            ⊎ Limited w' (api s e r w'))
  login-session jwt p then' now email password token w e r w' documented issues parses small logged
        some_text fresh grouped header =
      let (u, found, matched, issued, _) = login-ok s.env s.cred email password token w logged in
      let issued' : Identity.issue jwt p then' u.id ≡ some token =
        ap (λ f. f u.id) (sym issues) ∙ issued in
      let read : s.parse token ≡ some u.id =
        ap (λ f. f token) parses
        ∙ parse-issue jwt p then' now u.id token documented (small u found) issued' fresh in
      (u, found, matched, api_of e r w' token u.id grouped header some_text read)
