-- ===== src/Http/Router/Access.antt =====
-- Who reaches a handler of internal/transport/http/router.go, and what stops a request before it.
use task_tracker.Base.{
  ℕ, suc, ◌/◌, ◌∙◌, ◌≡◌, ◌≢◌, refl, true, Option, none, some, [], ◌∷◌, Text, ascii, ◌⊎◌, inl, inr,
  arith, Bool-cases,
}
use task_tracker.Tx.{Outcome, err}
use task_tracker.Store.{World}
use task_tracker.RateLimit.{Allowance}
use task_tracker.Http.Kit.{status, Request, Handler}
use task_tracker.Http.Trim.{cut_prefix}
use task_tracker.Http.Middleware.{
  Served, serving, auth, bearer, identified, rate_limit, user_key, reject_or_serve,
}
use task_tracker.Http.Middleware.Headers.{Answer}
use task_tracker.Http.Router.{
  Endpoint, Body, Site, HttpRequest, handler_request, authenticated, group_of, handler, behind, api,
}

-- The request was answered before its handler: with 401, or with 429 and the seconds to wait.
abbrev pub TurnedAway : {B : Type 0} → World → Outcome (Answer B) (Answer B) × World → Type 0
TurnedAway {B} w r =
    (a : Answer B) × (r ≡ (err a, w))
    × ((status a.reply ≡ 401)
        ⊎ ((status a.reply ≡ 429) × ((seconds : ℕ) × (a.retry_after ≡ some (suc seconds)))))

-- A bearer token that the provider reads, or 401.
bearer-cases :
    {B : Type 0} (parse : Text → Option ℕ) (found : Option Text) (next : ℕ → Served B) (w : World)
    → ((user_id : ℕ) × (raw : Text) × (found ≡ some raw)
        × (raw ≢ [])
        × (parse raw ≡ some user_id)
        × (bearer parse found next w ≡ next user_id w))
      ⊎ ((a : Answer B) × (bearer parse found next w ≡ (err a, w)) × (status a.reply ≡ 401))
bearer-cases parse none next w = inr (_, refl, refl)
bearer-cases parse (some []) next w = inr (_, refl, refl)
bearer-cases {B} parse (some (b ∷ raw)) next w = read (parse (b ∷ raw)) refl
  where
    read :
        (o : Option ℕ)
        → parse (b ∷ raw) ≡ o
        → ((user_id : ℕ) × (raw' : Text) × (some (b ∷ raw) ≡ some raw')
            × (raw' ≢ [])
            × (parse raw' ≡ some user_id)
            × (identified (parse (b ∷ raw)) next w ≡ next user_id w))
          ⊎ ((a : Answer B) × (identified (parse (b ∷ raw)) next w ≡ (err a, w))
              × (status a.reply ≡ 401))
    read none e = inr (rw e (_, refl, refl))
    read (some user_id) e = inl (user_id, b ∷ raw, refl, (λ f. cc), e, rw e)

-- The limiter lets pass, or 429.
pub reject_or_serve-cases :
    {B : Type 0} (a : Allowance) (next : Served B) (w : World)
    → ((a.allowed ≡ true) × (reject_or_serve a next w ≡ next w))
      ⊎ ((b : Answer B) × (reject_or_serve a next w ≡ (err b, w))
          × (status b.reply ≡ 429)
          × ((seconds : ℕ) × (b.retry_after ≡ some (suc seconds))))
reject_or_serve-cases a next w = elim (Bool-cases a.allowed) [
  | inl passes ↦ inl (passes, rw passes)
  | inr stopped ↦ inr (rw stopped (_, refl, refl, (a.retry_after / 1_000_000_000, ground arith)))
]

module _ (s : Site) where
  -- The token of the header, read by the provider, names the user, whom the limiter lets pass.
  abbrev pub IsAdmitted : Text → ℕ → Type 0
  IsAdmitted authorization user_id =
      (raw : Text) × (cut_prefix (ascii "Bearer ") authorization ≡ some raw)
      × (raw ≢ [])
      × (s.parse raw ≡ some user_id)
      × ((s.user_limiter (user_key user_id)).allowed ≡ true)

  behind-IsAdmitted :
      {A B : Type 0} (h : Request A → Handler B) (r : HttpRequest A) (w : World)
      → ((user_id : ℕ) × IsAdmitted r.authorization user_id
          × (behind s authenticated h r w ≡ serving (h (handler_request (some user_id) r)) w))
        ⊎ TurnedAway w (behind s authenticated h r w)
  unfolding auth rate_limit
  behind-IsAdmitted h r w =
      let next = λ (user_id : ℕ).
        rate_limit s.user_limiter (some user_id) (serving (h (handler_request (some user_id) r))) in
      elim (bearer-cases s.parse (cut_prefix (ascii "Bearer ") r.authorization) next w) [
        | inr (a, stopped, code) ↦ inr (a, stopped, inl code)
        | inl (user_id, raw, cut, some_text, read, on) ↦
            elim (reject_or_serve-cases (s.user_limiter (user_key user_id))
              (serving (h (handler_request (some user_id) r))) w) [
                | inl (passes, same) ↦ inl (user_id, (raw, cut, some_text, read, passes), on ∙ same)
                | inr (a, stopped, code, wait) ↦ inr (a, on ∙ stopped, inr (code, wait))
              ]
      ]

  -- At an endpoint that needs authentication, a request either reaches its handler as a user, in
  -- the world as it is, and then its header holds a bearer token that is not empty and that the
  -- provider reads as that user, whom the limiter lets pass; or nothing changes and it is answered
  -- with 401, or with 429 and a positive number of seconds to wait.
  pub api-IsAdmitted :
      (e : Endpoint) (r : HttpRequest (Body e)) (w : World)
      → group_of e ≡ authenticated
      → ((user_id : ℕ) × IsAdmitted r.authorization user_id
          × (api s e r w ≡ serving (handler s e (handler_request (some user_id) r)) w))
        ⊎ TurnedAway w (api s e r w)
  unfolding api
  api-IsAdmitted e r w grouped = rw grouped (behind-IsAdmitted (handler s e) r w)
