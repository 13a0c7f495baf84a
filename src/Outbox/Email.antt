-- ===== src/Outbox/Email.antt =====
-- internal/infrastructure/email/client.go: the sender of the relay. The circuit breaker is a third-party
-- package: it runs the function and returns its error, or refuses without running it. How the context
-- and the provider behave during one call is the argument `Call`.
pub mod Verdicts
use task_tracker.Base.{ℕ, Bool, true, false, Option, none, some, List, map, ℤ, Text}
use task_tracker.Outbox.{Message}
use task_tracker.Outbox.Process.{
  Reply, results, failed, panicked, SendError, canceled, deadline_exceeded, provider,
}

-- `ctx.Err()` of a context that has ended.
pub data CtxError : Type 0 where
  cancelled expired : CtxError

-- The error of `send`, by what `errors.Is` finds in it.
pub data DeliveryError : Type 0 where
  timed_out stopped refused : DeliveryError

-- How `send` ends.
pub data Delivery : Type 0 where
  returns : Option DeliveryError → Delivery
  panics : Text → Delivery

pub record Call : Type 0 where
  -- `ctx.Err()` at the start
  pub ended : Option CtxError
  -- the breaker is open
  pub is_open : Bool
  pub send : Delivery
  -- `parent.Err()` when `send` has failed
  pub parent : Option CtxError

-- What the function handed to the breaker returns, or the breaker itself.
pub data Attempt : Type 0 where
  delivered caller_gone provider_timeout breaker_open : Attempt
  raw : DeliveryError → Attempt
  crashed : Text → Attempt

abbrev kind_of : CtxError → SendError
kind_of cancelled = canceled
kind_of expired = deadline_exceeded

-- The switch inside the function.
unfoldable pub attempt : Delivery → Option CtxError → Attempt
attempt (panics why) parent = crashed why
attempt (returns none) parent = Attempt.delivered
attempt (returns (some e)) (some _) = caller_gone
attempt (returns (some timed_out)) none = provider_timeout
attempt (returns (some stopped)) none = raw stopped
attempt (returns (some refused)) none = raw refused

-- `breaker.Execute`, which raises a panic of the function again.
unfoldable pub execute : Call → Attempt
execute call = elim call.is_open [ true ↦ breaker_open | false ↦ attempt call.send call.parent ]

-- What the relay finds in a `SendError`, whose `Unwrap` is the error of the attempt.
abbrev kind_of_raw : DeliveryError → SendError
kind_of_raw timed_out = deadline_exceeded
kind_of_raw stopped = canceled
kind_of_raw refused = provider

-- `errors.Is(err, errCallerGone)` comes with `parent.Err()`.
abbrev pub gone_reply : Option CtxError → Reply
gone_reply none = failed provider none
gone_reply (some e) = failed (kind_of e) none

abbrev reply_of : ℤ → Option CtxError → List Message → Attempt → Reply
reply_of open_for parent msgs Attempt.delivered = results (map (λ _. none) msgs)
reply_of open_for parent msgs caller_gone = gone_reply parent
reply_of open_for parent msgs provider_timeout = failed provider (some open_for)
reply_of open_for parent msgs breaker_open = failed provider (some open_for)
reply_of open_for parent msgs (crashed why) = panicked why
reply_of open_for parent msgs (raw e) = failed (kind_of_raw e) (some open_for)

abbrev start_reply : ℤ → Call → List Message → Option CtxError → Attempt → Reply
start_reply open_for call msgs (some e) a = failed (kind_of e) none
start_reply open_for call msgs none a = reply_of open_for call.parent msgs a

-- `SendBatch`
unfoldable pub send_batch : ℤ → Call → List Message → Reply
unfolding attempt execute
send_batch open_for call msgs = start_reply open_for call msgs call.ended (execute call)
