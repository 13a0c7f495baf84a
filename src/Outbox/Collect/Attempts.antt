-- ===== src/Outbox/Collect/Attempts.antt =====
-- `collect` against its description: which retries are rescheduled and which are given up.
use task_tracker.Base.{
  pos, leb_ℤ, ℕ, ◌+◌, ◌≡◌, refl, sym, ◌∙◌, Bool, true, false, not, List, [], ◌∷◌, ◌++◌, append-nil,
  append_assoc, map, map-append, keep, flatten, ℤ, if◌then◌else◌, arith, Bool-cases, inl, inr,
}
use task_tracker.Outbox.{Retry, Failure}
use task_tracker.Outbox.Backoff.{backoff}
use task_tracker.Outbox.Process.{RetryItem, ShardOutcome}
use task_tracker.Outbox.Collect.{
  Settlement, no_settlement, settle_retry, settle_retries, settle_shard, collect_from, collect,
}

-- The attempt that a retry has just spent was the last one allowed.
abbrev pub is_spent : ℤ → RetryItem → Bool
is_spent max_attempts it = leb_ℤ max_attempts (pos (it.claimed.attempts + 1))

abbrev pub to_failure : RetryItem → Failure
to_failure it = record { last_err = it.reason; id = it.claimed.id }

abbrev pub to_retry : (ℤ → ℤ) → RetryItem → Retry
to_retry jitter it = record {
  last_err = it.reason;
  delay = backoff jitter (it.claimed.attempts + 1);
  id = it.claimed.id;
}

abbrev pub all_retries : List ShardOutcome → List RetryItem
all_retries outcomes = flatten (map (λ o. o.retry) outcomes)

abbrev pub sum_delivered : List ShardOutcome → ℕ
sum_delivered [] = 0
sum_delivered (o ∷ outcomes) = o.delivered + sum_delivered outcomes

abbrev pub any_paused : List ShardOutcome → Bool
any_paused [] = false
any_paused (o ∷ outcomes) = if o.paused then true else any_paused outcomes

module _ (jitter : ℤ → ℤ) (max_attempts : ℤ) where
  abbrev failures : List RetryItem → List Failure
  failures its = map to_failure (keep (is_spent max_attempts) its)

  abbrev retries : List RetryItem → List Retry
  retries its = map (to_retry jitter) (keep (λ it. not (is_spent max_attempts it)) its)

  -- The settlement with the retries of one shard added.
  abbrev add_retries : Settlement → List RetryItem → Settlement
  add_retries s its = record s {
    fail = s.fail ++ failures its;
    reschedule = s.reschedule ++ retries its;
  }

  settle_retries_lem :
      (its : List RetryItem) (s : Settlement)
      → settle_retries jitter max_attempts s its ≡ add_retries s its
  unfolding settle_retries settle_retry
  settle_retries_lem [] s = simp append-nil
  settle_retries_lem (it ∷ its) s =
      settle_retries_lem its (settle_retry jitter max_attempts s it)
      ∙ elim (Bool-cases (is_spent max_attempts it)) [
        | inl spent ↦ simp (spent, append_assoc)
        | inr left ↦ simp (left, append_assoc)
      ]

  record Sums (s : Settlement) (outcomes : List ShardOutcome) (t : Settlement) : Type 0 where
    gone : t.sent ≡ s.sent ++ flatten (map (λ o. o.sent) outcomes)
    failed : t.fail ≡ s.fail ++ failures (all_retries outcomes)
    rescheduled : t.reschedule ≡ s.reschedule ++ retries (all_retries outcomes)
    counted : t.delivered ≡ s.delivered + sum_delivered outcomes
    stopped : t.paused ≡ (if s.paused then true else any_paused outcomes)

  keep-append :
      {A : Type 0} (p : A → Bool) (xs ys : List A) → keep p (xs ++ ys) ≡ keep p xs ++ keep p ys
  keep-append p [] ys = refl
  keep-append p (x ∷ xs) ys = ground (arith, keep-append p xs ys)

  failures-append : (xs ys : List RetryItem) → failures (xs ++ ys) ≡ failures xs ++ failures ys
  failures-append xs ys = simp (keep-append, map-append)

  retries-append : (xs ys : List RetryItem) → retries (xs ++ ys) ≡ retries xs ++ retries ys
  retries-append xs ys = simp (keep-append, map-append)

  -- The same for one shard.
  record Adds (s : Settlement) (o : ShardOutcome) (t : Settlement) : Type 0 where
    gone : t.sent ≡ s.sent ++ o.sent
    failed : t.fail ≡ s.fail ++ failures o.retry
    rescheduled : t.reschedule ≡ s.reschedule ++ retries o.retry
    counted : t.delivered ≡ s.delivered + o.delivered
    stopped : t.paused ≡ (if o.paused then true else s.paused)

  settle_shard-Adds :
      (o : ShardOutcome) (s : Settlement) → Adds s o (settle_shard jitter max_attempts s o)
  unfolding settle_shard
  settle_shard-Adds o s = simp settle_retries_lem (elim (Bool-cases o.paused) [
    | inl e ↦ simp e (record {
      gone = refl;
      failed = refl;
      rescheduled = refl;
      counted = refl;
      stopped = simp e;
    })
    | inr e ↦ simp e (record {
      gone = refl;
      failed = refl;
      rescheduled = refl;
      counted = refl;
      stopped = simp e;
    })
  ])

  collect_from-Sums :
      (outcomes : List ShardOutcome) (s : Settlement)
      → Sums s outcomes (collect_from jitter max_attempts s outcomes)
  unfolding collect_from
  collect_from-Sums [] s = record {
    gone = sym (append-nil _);
    failed = sym (append-nil _);
    rescheduled = sym (append-nil _);
    counted = omega arith;
    stopped = ground arith;
  }
  collect_from-Sums (o ∷ outcomes) s =
      let here = settle_shard-Adds o s in
      let later = collect_from-Sums outcomes (settle_shard jitter max_attempts s o) in
      record {
        gone = later.gone ∙ simp (here.gone, append_assoc);
        failed =
            later.failed
            ∙ simp (here.failed, failures-append o.retry (all_retries outcomes), append_assoc);
        rescheduled =
            later.rescheduled
            ∙ simp (here.rescheduled, retries-append o.retry (all_retries outcomes), append_assoc);
        counted = omega (arith, later.counted, here.counted);
        stopped = ground (arith, later.stopped, here.stopped);
      }

  -- The settlement of a tick lists what the shards sent in their order; of the messages put up for
  -- a retry it gives up exactly those whose attempts, this one included, reach the maximum, and
  -- reschedules the others with the backoff of that attempt, in their order; its deliveries are the
  -- sum of those of the shards, and it pauses exactly when a shard asks for it.
  pub collect-settles :
      (outcomes : List ShardOutcome)
      → let t = collect jitter max_attempts outcomes in
        let again = flatten (map (λ o. o.retry) outcomes) in
        (t.sent ≡ flatten (map (λ o. o.sent) outcomes))
        × (t.fail ≡ map to_failure (keep (is_spent max_attempts) again))
        × (t.reschedule ≡ map (to_retry jitter) (keep (λ it. not (is_spent max_attempts it)) again))
        × (t.delivered ≡ sum_delivered outcomes)
        × (t.paused ≡ any_paused outcomes)
  unfolding collect
  collect-settles outcomes =
      let t = collect_from-Sums outcomes no_settlement in
      (t.gone, t.failed, t.rescheduled, omega (arith, t.counted), t.stopped)

  pub collect-nil : collect jitter max_attempts [] ≡ no_settlement
  unfolding collect
  collect-nil = refl
