-- ===== src/Http/Middleware.antt =====
-- internal/transport/http/middleware/middleware.go. A handler that follows is an argument. What the
-- package `net` makes of an address is an argument too.
use task_tracker.Base.{
  ℕ, suc, ◌+◌, ◌/◌, Bool, true, false, Option, none, some, List, [], ◌∷◌, ◌++◌, Text, ascii,
  text_eq, decimal, leb, if◌then◌else◌,
}
use task_tracker.Tx.{Outcome, Action, pure, raise}
use task_tracker.Store.{World}
use task_tracker.RateLimit.{Allowance}
use task_tracker.Http.Kit.{Reply, error, status, Handler}
use task_tracker.Http.Trim.{cut_prefix}
use task_tracker.Http.Middleware.Headers.{Answer, plain}
pub mod Headers
pub mod Observed

-- `net.SplitHostPort`, `net.ParseIP` and `IPNet.Contains`.
pub record Net : Type 1 where
  pub Ip : Type 0
  pub Range : Type 0
  pub split_host : Text → Option Text
  pub parse_ip : Text → Option Ip
  pub range_contains : Range → Ip → Bool

-- A handler behind the middleware, which sets headers of its own.
abbrev pub Served : Type 0 → Type 0
Served B = World → Outcome (Answer B) (Answer B) × World

abbrev pub as_answer : {B : Type 0} → Outcome (Reply B) (Reply B) → Outcome (Answer B) (Answer B)
as_answer (Outcome.ok r) = Outcome.ok (plain r)
as_answer (Outcome.err r) = Outcome.err (plain r)
as_answer Outcome.panicked = Outcome.panicked

-- `next.ServeHTTP`
abbrev pub serving : {B : Type 0} → Handler B → Served B
serving h w = let (r, w') = h w in (as_answer r, w')

abbrev pub answered : {B : Type 0} → Reply B → Served B
answered r w = (Outcome.err (plain r), w)

abbrev pub identified : {B : Type 0} → Option ℕ → (ℕ → Served B) → Served B
identified none next = answered (error 401 (ascii "invalid token"))
identified (some user_id) next = next user_id

abbrev pub bearer : {B : Type 0} → (Text → Option ℕ) → Option Text → (ℕ → Served B) → Served B
bearer parse none next = answered (error 401 (ascii "missing bearer token"))
bearer parse (some []) next = answered (error 401 (ascii "missing bearer token"))
bearer parse (some (b ∷ raw)) next = identified (parse (b ∷ raw)) next

-- `Auth`, with the `Authorization` header; the handler that follows has the principal.
unfoldable pub auth : {B : Type 0} → (Text → Option ℕ) → Text → (ℕ → Served B) → Served B
unfolding cut_prefix
auth parse header next = bearer parse (cut_prefix (ascii "Bearer ") header) next

-- `rejectOrServe`; a duration is in nanoseconds.
abbrev pub reject_or_serve : {B : Type 0} → Allowance → Served B → Served B
reject_or_serve a next w = if a.allowed then next w else (
  Outcome.err (record {
    reply = error 429 (ascii "rate limit exceeded");
    retry_after = some (a.retry_after / 1_000_000_000 + 1);
  }),
  w,
)

abbrev pub user_key : ℕ → Text
user_key user_id = ascii "user:" ++ decimal user_id

-- `RateLimit`
unfoldable pub rate_limit : {B : Type 0} → (Text → Allowance) → Option ℕ → Served B → Served B
rate_limit allow none next = answered (error 401 (ascii "missing principal"))
rate_limit allow (some user_id) next = reject_or_serve (allow (user_key user_id)) next

module _ (net : Net) where
  abbrev pub host_of : Text → Option Text → Text
  host_of remote_addr none = remote_addr
  host_of remote_addr (some host) = host

  unfoldable pub in_any : List net.Range → net.Ip → Bool
  in_any [] ip = false
  in_any (n ∷ ns) ip = if net.range_contains n ip then true else in_any ns ip

  abbrev pub is_trusted : List net.Range → Option net.Ip → Bool
  is_trusted trusted none = false
  is_trusted trusted (some ip) = in_any trusted ip

  -- `RateLimitByIP`
  unfoldable pub rate_limit_by_ip :
      {B : Type 0} → (Text → Allowance) → List net.Range → Text → Served B → Served B
  unfolding in_any
  rate_limit_by_ip allow trusted remote_addr next =
      let host = host_of remote_addr (net.split_host remote_addr) in
      if is_trusted trusted (net.parse_ip host)
      then next
      else reject_or_serve (allow (ascii "ip:" ++ host)) next
