-- ===== src/Outbox/Collect.antt =====
-- `collect` of internal/infrastructure/outbox/relay.go: the outcomes of the shards become the rows
-- to delete, to reschedule and to give up on.
pub mod Attempts
use task_tracker.Base.{
  ℕ, suc, ◌+◌, Bool, true, false, List, [], ◌∷◌, ◌++◌, ℤ, pos, max_ℤ, leb_ℤ, if◌then◌else◌,
}
use task_tracker.Outbox.{Retry, Failure}
use task_tracker.Outbox.Backoff.{backoff}
use task_tracker.Outbox.Process.{RetryItem, ShardOutcome}

pub record Settlement : Type 0 where
  pub sent : List ℕ
  pub reschedule : List Retry
  pub fail : List Failure
  pub pause : ℤ
  pub delivered : ℕ
  pub paused : Bool

abbrev pub no_settlement : Settlement
no_settlement = record {
  sent = [];
  reschedule = [];
  fail = [];
  pause = pos 0;
  delivered = 0;
  paused = false;
}

module _ (jitter : ℤ → ℤ) (max_attempts : ℤ) where
  -- One turn of the loop over `o.retry`.
  unfoldable pub settle_retry : Settlement → RetryItem → Settlement
  settle_retry s it =
      let attempts = it.claimed.attempts + 1 in
      if leb_ℤ max_attempts (pos attempts)
      then record s { fail = s.fail ++ record { last_err = it.reason; id = it.claimed.id } ∷ [] }
      else record s {
        reschedule =
            s.reschedule
            ++ record { last_err = it.reason; delay = backoff jitter attempts; id = it.claimed.id }
              ∷ [];
      }

  unfoldable pub settle_retries : Settlement → List RetryItem → Settlement
  unfolding settle_retry
  settle_retries s [] = s
  settle_retries s (it ∷ retry) = settle_retries (settle_retry s it) retry

  -- One turn of the loop over the outcomes.
  unfoldable pub settle_shard : Settlement → ShardOutcome → Settlement
  unfolding settle_retries
  settle_shard s o =
      let t =
        settle_retries (record s { sent = s.sent ++ o.sent; delivered = s.delivered + o.delivered })
          o.retry in
      if o.paused then record t { paused = true; pause = max_ℤ t.pause o.pause } else t

  unfoldable pub collect_from : Settlement → List ShardOutcome → Settlement
  collect_from s [] = s
  collect_from s (o ∷ outcomes) = collect_from (settle_shard s o) outcomes

  unfoldable pub collect : List ShardOutcome → Settlement
  unfolding collect_from settle_shard
  collect outcomes = collect_from no_settlement outcomes
