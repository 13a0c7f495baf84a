-- ===== src/Outbox/Process.antt =====
-- `processShard` of internal/infrastructure/outbox/relay.go. What the worker meets while it runs
-- (its context, the dedup store, the provider, a panic in either) is the argument `Observed`; the
-- deferred recovery is the last stage. Logging and the error counters are left out.
pub mod Settled
pub mod Delivery
use task_tracker.Base.{
  ℕ, zero, suc, ◌+◌, ◌≡◌, Bool, true, false, Option, none, some, List, [], ◌∷◌, ◌++◌, map, Text,
  ascii, length, drop, ℤ, pos, ◌==◌, if◌then◌else◌,
}
use task_tracker.Outbox.{Message, Claimed, SendResult}

-- `ctx.Err()` and `context.Cause(ctx)` when a worker starts.
pub data CtxState : Type 0 where
  live paused_by_sibling cancelled expired : CtxState

-- What `errors.Is` finds in the error of a failed call.
pub data SendError : Type 0 where
  canceled deadline_exceeded provider : SendError

-- `Deduper.WasSent`, which may panic.
pub data Answer : Type 0 where
  sent unsent : Answer
  panics : Text → Answer

-- `Sender.SendBatch`: one verdict for each message, an error with the hint that `errors.As` finds
-- in it, or a panic.
pub data Reply : Type 0 where
  results : List SendResult → Reply
  failed : SendError → Option ℤ → Reply
  panicked : Text → Reply

pub record Observed : Type 0 where
  pub ctx : CtxState
  pub was_sent : ℕ → Answer
  pub send_batch : List Message → Reply
  -- the cause of the context is `errPaused` when the send has failed
  pub sibling_paused : Bool
  -- `Deduper.MarkSent` panics with this
  pub mark_panics : ℕ → Option Text

pub record RetryItem : Type 0 where
  pub reason : Text
  pub claimed : Claimed

pub record ShardOutcome : Type 0 where
  pub sent : List ℕ
  pub retry : List RetryItem
  pub pause : ℤ
  pub delivered : ℕ
  pub paused : Bool

abbrev pub no_outcome : ShardOutcome
no_outcome = record { sent = []; retry = []; pause = pos 0; delivered = 0; paused = false }

-- What the check loop has gathered when it ends or panics.
pub record Checked : Type 0 where
  pub already : List ℕ
  pub pending : List Claimed
  pub crash : Option Text

-- One turn of the check loop, given what the later turns gather.
unfoldable pub check_one : Answer → Claimed → Checked → Checked
check_one Answer.sent c rest = record rest { already = c.id ∷ rest.already }
check_one Answer.unsent c rest = record rest { pending = c ∷ rest.pending }
check_one (Answer.panics why) c rest = record { already = []; pending = []; crash = some why }

-- The loop over the shard that asks the dedup store.
unfoldable pub check : (ℕ → Answer) → List Claimed → Checked
unfolding check_one
check was_sent [] = record { already = []; pending = []; crash = none }
check was_sent (c ∷ shard) = check_one (was_sent c.id) c (check was_sent shard)

pub record Marked : Type 0 where
  pub sent : List ℕ
  pub retry : List RetryItem
  pub delivered : ℕ
  pub crash : Option Text

abbrev pub no_marks : Marked
no_marks = record { sent = []; retry = []; delivered = 0; crash = none }

-- One turn of the marking loop: the verdict, and what `MarkSent` does if it is reached.
unfoldable pub mark_one : SendResult → Option Text → Claimed → Marked → Marked
mark_one (some err) panic c rest = record rest {
  retry = record { reason = err; claimed = c } ∷ rest.retry;
}
mark_one none none c rest = record rest { sent = c.id ∷ rest.sent; delivered = suc rest.delivered }
mark_one none (some why) c rest = record no_marks { crash = some why }

-- The loop over `pending` and `results` that marks what was delivered.
unfoldable pub mark : (ℕ → Option Text) → List Claimed → List SendResult → Marked
unfolding mark_one
mark mark_panics [] verdicts = no_marks
mark mark_panics (c ∷ pending) [] = no_marks
mark mark_panics (c ∷ pending) (verdict ∷ rest) =
    mark_one verdict (mark_panics c.id) c (mark mark_panics pending rest)

-- The deferred recovery: `pending[out.delivered:]` is retried, and the siblings are stopped.
unfoldable pub recovered : Option Text → List Claimed → ShardOutcome → ShardOutcome × Bool
recovered none pending out = (out, false)
recovered (some why) pending out = (
  record out {
    retry =
        out.retry
        ++ map (λ c. record { reason = ascii "relay panic: " ++ why; claimed = c })
            (drop out.delivered pending);
  },
  true,
)

-- The outcome of a failed call, and whether the siblings are stopped.
unfoldable pub send_failed : Bool → SendError → ShardOutcome → ShardOutcome × Bool
send_failed true kind out = (record out { paused = true }, true)
send_failed false canceled out = (out, true)
send_failed false deadline_exceeded out = (record out { paused = true }, true)
send_failed false provider out = (record out { paused = true }, true)

abbrev pub hint_or_zero : Option ℤ → ℤ
hint_or_zero none = pos 0
hint_or_zero (some d) = d

abbrev pub messages : List Claimed → List Message
messages = map (λ c. c.message)

-- After the call of `SendBatch`, for the messages of `pending`.
unfoldable pub after_send : Observed → List ℕ → List Claimed → Reply → ShardOutcome × Bool
unfolding recovered send_failed mark
after_send o already pending (failed kind hint) =
    send_failed o.sibling_paused kind
      (record no_outcome { sent = already; pause = hint_or_zero hint })
after_send o already pending (panicked why) =
    recovered (some why) pending (record no_outcome { sent = already })
after_send o already pending (results rs) =
    let m = mark o.mark_panics pending rs in
    if length rs == length pending
    then recovered m.crash pending
        (record no_outcome { sent = already ++ m.sent; retry = m.retry; delivered = m.delivered })
    else (record no_outcome { sent = already; paused = true }, true)

-- The stages after the check loop.
unfoldable pub after_check : Observed → Option Text → List ℕ → List Claimed → ShardOutcome × Bool
unfolding after_send
after_check o (some why) already pending =
    recovered (some why) pending (record no_outcome { sent = already })
after_check o none already [] = (record no_outcome { sent = already }, false)
after_check o none already (c ∷ pending) =
    after_send o already (c ∷ pending) (o.send_batch (messages (c ∷ pending)))

-- A worker whose context has ended skips its shard.
unfoldable pub when_live : CtxState → ShardOutcome × Bool → ShardOutcome × Bool
when_live live out = out
when_live paused_by_sibling out = (no_outcome, false)
when_live cancelled out = (no_outcome, false)
when_live expired out = (no_outcome, false)

-- The outcome of a shard, and whether `cancel(errPaused)` was called.
unfoldable pub process_shard : Observed → List Claimed → ShardOutcome × Bool
unfolding check after_check when_live
process_shard o shard =
    let c = check o.was_sent shard in when_live o.ctx (after_check o c.crash c.already c.pending)
