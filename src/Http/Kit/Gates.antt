-- ===== src/Http/Kit/Gates.antt =====
-- The tests of a handler of internal/transport/http that come before its service: each lets the request
-- pass with a value, or answers it and nothing has changed.
use task_tracker.Base.{
  ℕ, ◌≤◌, ◌<◌, ◌≡◌, ◌≢◌, refl, ap, Option, none, some, Text, ◌⊎◌, inl, inr, ℤ, parse_int, arith,
}
use task_tracker.Tx.{Outcome, ok, err, panicked, Action, ◌>>=◌, ◌>>◌}
use task_tracker.Domain.{Error}
use task_tracker.Store.{World, Db}
use task_tracker.Store.Undone.{Undone}
use task_tracker.Http.Kit.{
  Handler, Reply, json, status, Decoded, too_large, malformed, decoded, principal_of, decode_json,
  check, identifier, path_id, url_number, switch, answer,
}

-- The answer, if there is one, is an error's.
abbrev pub Fails : {B : Type 0} → Outcome (Reply B) (Reply B) → Type 0
Fails (ok r) = 400 ≤ status r
Fails (err r) = 400 ≤ status r
Fails panicked = Unit {0}

-- The tables are those of `w`, and no success was answered.
abbrev pub Refused : {B : Type 0} → World → Outcome (Reply B) (Reply B) × World → Type 0
Refused w r = (r.1.tables ≡ w.tables) × Fails r.0

abbrev pub Passes : {A B : Type 0} → Action World (Reply B) A → World → (A → Type 0) → Type 0
Passes {A} {B} m w P =
    ((a : A) × P a × (m w ≡ (ok a, w))) ⊎ ((r : Reply B) × (m w ≡ (err r, w)) × (400 ≤ status r))

-- What holds where the request has passed, or else is refused, holds of the test with what follows it.
then-Passes :
    {A B : Type 0} (G : Outcome (Reply B) (Reply B) × World → Type 0) (w : World)
    (m : Action World (Reply B) A) (f : A → Action World (Reply B) (Reply B)) (P : A → Type 0)
    → Passes m w P
    → ((a : A) → P a → G (f a w) ⊎ Refused w (f a w))
    → G ((m >>= f) w) ⊎ Refused w ((m >>= f) w)
then-Passes G w m f P (inl (a, p, e)) after = rw e (after a p)
then-Passes G w m f P (inr (r, e, code)) after = rw e (inr (refl, code))

module _ {B : Type 0} where
  principal_of-Passes :
      (o : Option ℕ) (w : World) → Passes {B = B} (principal_of o) w (λ user_id. o ≡ some user_id)
  principal_of-Passes none w = inr (_, refl, omega arith)
  principal_of-Passes (some user_id) w = inl (user_id, refl, refl)

  decode_json-Passes :
      {A : Type 0} (b : Decoded A) (w : World)
      → Passes {B = B} (decode_json b) w (λ v. b ≡ decoded v)
  decode_json-Passes too_large w = inr (_, refl, omega arith)
  decode_json-Passes malformed w = inr (_, refl, omega arith)
  decode_json-Passes (decoded v) w = inl (v, refl, refl)

  check-Passes : (e : Option Text) (w : World) → Passes {B = B} (check e) w (λ _. e ≡ none)
  check-Passes none w = inl (tt, refl, refl)
  check-Passes (some message) w = inr (_, refl, omega arith)

  url_number-Passes :
      (message : Text) (o : Option ℤ) (w : World)
      → Passes {B = B} (url_number message o) w (λ id. (z : ℤ) × (o ≡ some z) × (id ≡ identifier z))
  url_number-Passes message none w = inr (_, refl, omega arith)
  url_number-Passes message (some z) w = inl (identifier z, (z, refl, refl), refl)

  path_id-Passes :
      (message s : Text) (w : World)
      → Passes {B = B}
          (path_id message s)
          w
          (λ id. (z : ℤ) × (parse_int s ≡ some z) × (id ≡ identifier z))
  path_id-Passes message s w = url_number-Passes message (parse_int s) w

-- The tests that a handler makes before its service, in the order of the code: `G` holds of the handler
-- where it holds of the call for what passed.
module _ {B : Type 0} (G : Outcome (Reply B) (Reply B) × World → Type 0) (w : World) where
  abbrev Good : Handler B → Type 0
  Good h = G (h w) ⊎ Refused w (h w)

  pub body_gates :
      {A : Type 0} (principal : Option ℕ) (sent : Decoded A) (valid : A → Option Text)
      (k : ℕ → A → Handler B)
      → ((user_id : ℕ) (body : A)
          → principal ≡ some user_id
          → sent ≡ decoded body
          → valid body ≡ none
          → Good (k user_id body))
      → Good (do
        user_id ← principal_of principal
        body ← decode_json sent
        check (valid body)
        k user_id body)
  body_gates principal sent valid k good =
      then-Passes G w (principal_of principal)
        (λ user_id. decode_json sent >>= λ body. check (valid body) >> k user_id body)
        (λ user_id. principal ≡ some user_id) (principal_of-Passes principal w)
        λ user_id is_user.
          then-Passes G w (decode_json sent) (λ body. check (valid body) >> k user_id body)
            (λ body. sent ≡ decoded body) (decode_json-Passes sent w)
            λ body is_body.
              then-Passes G w (check (valid body)) (λ _. k user_id body) (λ _. valid body ≡ none)
                (check-Passes (valid body) w)
                λ _ is_valid. good user_id body is_user is_body is_valid

  pub path_gates :
      (principal : Option ℕ) (message url_id : Text) (k : ℕ → ℕ → Handler B)
      → ((user_id : ℕ) (id : ℤ)
          → principal ≡ some user_id
          → parse_int url_id ≡ some id
          → Good (k user_id (identifier id)))
      → Good (do user_id ← principal_of principal; id ← path_id message url_id; k user_id id)
  path_gates principal message url_id k good =
      then-Passes G w (principal_of principal) (λ user_id. path_id message url_id >>= k user_id)
        (λ user_id. principal ≡ some user_id) (principal_of-Passes principal w)
        λ user_id is_user.
          then-Passes G w (path_id message url_id) (k user_id)
            (λ id. (z : ℤ) × (parse_int url_id ≡ some z) × (id ≡ identifier z))
            (path_id-Passes message url_id w)
            λ id (z, parsed, same). rw same (good user_id z is_user parsed)

  pub path_body_gates :
      {A : Type 0} (principal : Option ℕ) (message url_id : Text) (sent : Decoded A)
      (valid : A → Option Text) (k : ℕ → ℕ → A → Handler B)
      → ((user_id : ℕ) (id : ℤ) (body : A)
          → principal ≡ some user_id
          → parse_int url_id ≡ some id
          → sent ≡ decoded body
          → valid body ≡ none
          → Good (k user_id (identifier id) body))
      → Good (do
        user_id ← principal_of principal
        id ← path_id message url_id
        body ← decode_json sent
        check (valid body)
        k user_id id body)
  path_body_gates principal message url_id sent valid k good =
      path_gates principal message url_id
        (λ user_id id. decode_json sent >>= λ body. check (valid body) >> k user_id id body)
        λ user_id id is_user is_id.
          then-Passes G w (decode_json sent)
            (λ body. check (valid body) >> k user_id (identifier id) body)
            (λ body. sent ≡ decoded body) (decode_json-Passes sent w)
            λ body is_body.
              then-Passes G w (check (valid body)) (λ _. k user_id (identifier id) body)
                (λ _. valid body ≡ none) (check-Passes (valid body) w)
                λ _ is_valid. good user_id id body is_user is_id is_body is_valid

-- A call that is undone is answered with an error.
answer-Refused :
    {A B : Type 0} (call : Db A) (done : A → Reply B) (failed : Error → Reply B) (w : World)
    → ((e : Error) → 400 ≤ status (failed e))
    → Undone w (call w)
    → Refused w (answer call done failed w)
answer-Refused {A} {B} call done failed w is_error (kept, no_value) = (kept, go (call w).0 no_value)
  where
    go : (r : Outcome Error A) → ((a : A) → r ≢ ok a) → Fails (switch done failed r)
    go (ok a) no_a = absurd (no_a a refl)
    go (err e) no_a = is_error e
    go panicked no_a = tt

answer-ok :
    {A B : Type 0} (call : Db A) (done : A → Reply B) (failed : Error → Reply B) (w : World) (a : A)
    → (call w).0 ≡ ok a
    → (answer call done failed w).0 ≡ ok (done a)
answer-ok call done failed w a e = rw e refl

-- A call that returns a value with `Q` or is undone: it is answered as `done` says, or refused.
pub answer_either :
    {A B : Type 0} (Q : A → Type 0) (call : Db A) (done : A → Reply B) (failed : Error → Reply B)
    (w : World)
    → ((e : Error) → 400 ≤ status (failed e))
    → ((a : A) × ((call w).0 ≡ ok a) × Q a) ⊎ Undone w (call w)
    → ((a : A) × ((answer call done failed w).0 ≡ ok (done a)) × Q a)
      ⊎ Refused w (answer call done failed w)
answer_either Q call done failed w is_error (inl (a, returned, q)) =
    inl (a, answer-ok call done failed w a returned, q)
answer_either Q call done failed w is_error (inr undone) =
    inr (answer-Refused call done failed w is_error undone)

-- A JSON answer with a status below 400 is that of a call that has returned.
pub answer-json :
    {A B : Type 0} (call : Db A) (done : A → Reply B) (failed : Error → Reply B) (w : World)
    (code : ℕ) (v : B)
    → ((e : Error) → 400 ≤ status (failed e))
    → code < 400
    → (answer call done failed w).0 ≡ ok (json code v)
    → (a : A) × ((call w).0 ≡ ok a) × (done a ≡ json code v)
answer-json {A} {B} call done failed w code v is_error small = go (call w).0
  where
    go :
        (r : Outcome Error A)
        → switch done failed r ≡ ok (json code v)
        → (a : A) × (r ≡ ok a) × (done a ≡ json code v)
    go (ok a) h = (a, refl, cc)
    go (err e) h =
        let same : failed e ≡ json code v = cc in
        absurd (ground (arith, is_error e, ap status same))
    go panicked h = cc
