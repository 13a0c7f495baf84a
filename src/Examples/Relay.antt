-- ===== src/Examples/Relay.antt =====
-- The theorems on the relay at a batch of three messages.
use task_tracker.Base.{
  ℕ, ◌+◌, ◌*◌, ◌^◌, ◌≤◌, ◌<◌, min, max, ◌≡◌, ◌≢◌, refl, true, false, not, none, some, [], ◌∷◌, map,
  keep, flatten, count, length, All, Text, ascii, pos, negsuc, inl, inr, ◌⊎◌, arith,
}
use task_tracker.Outbox.{second, backoff_cap}
use task_tracker.Outbox.Shard.{shard_by, clamp_workers, shard_size, shard_loop}
use task_tracker.Outbox.Shard.Partition.{shard_by-partition}
use task_tracker.Outbox.Backoff.{base_delay, backoff}
use task_tracker.Outbox.Backoff.Delay.{IsJitter, backoff_bounds, base_delay_overflow}
use task_tracker.Outbox.Process.{
  Observed, Answer, failed, provider, canceled, check_one, check, mark_one, mark, recovered,
  send_failed, after_send, after_check, when_live, hint_or_zero, process_shard,
}
use task_tracker.Outbox.Email.{Call, panics, send_batch}
use task_tracker.Outbox.Email.Verdicts.{Settles, send_batch-Settles}
use task_tracker.Outbox.Process.Settled.{
  ids, retry_ids, process_shard-settles, process_shard-call_failed,
}
use task_tracker.Outbox.Process.Delivery.{Justified, process_shard-sent}
use task_tracker.Outbox.Collect.{settle_retry, settle_retries, settle_shard, collect_from, collect}
use task_tracker.Outbox.Collect.Attempts.{
  is_spent, to_failure, to_retry, sum_delivered, any_paused, collect-settles,
}
use task_tracker.Outbox.Table.{claim, delete, reschedule_row, fail_row, reschedule, mark_failed}
use task_tracker.Outbox.Truncate.{truncate_utf8, to_valid_utf8}
use task_tracker.Outbox.Truncate.Bounds.{truncate_utf8-fits}
use task_tracker.Outbox.Tick.{
  restore, outcomes_from, dispatch, claim_step, set_settled, settle, settle_claimed, tick_body,
  finish, tick,
}
use task_tracker.Outbox.Tick.Rows.{Committed, tick-atomic}
use task_tracker.Outbox.Run.{ticked, done, run}
use task_tracker.Outbox.Run.Safety.{SentBy, run-SentBy}
use task_tracker.Examples.Data.{committing, batch, worker, cfg, env, relay}

tick-atomic_example :
    let r' = tick (committing restore) env cfg relay in
    ((env.now < relay.paused_until) × (r' ≡ relay))
    ⊎ Committed env cfg relay r'
    ⊎ ((r'.rows ≡ relay.rows) × (r'.tick_errors ≡ 1) × (r'.sent_total ≡ 0) × (r'.failed_total ≡ 0))
tick-atomic_example = tick-atomic env cfg (committing restore) relay

run-SentBy_example : SentBy (committing restore) cfg (ticked false env ∷ done ∷ []) 2 relay
unfolding run shard_by clamp_workers shard_size shard_loop check_one check mark_one mark recovered
    send_failed after_send after_check when_live process_shard settle_retry settle_retries
    settle_shard collect_from collect outcomes_from dispatch claim_step set_settled settle
    settle_claimed tick_body finish tick claim delete reschedule_row fail_row reschedule mark_failed
    base_delay backoff truncate_utf8
run-SentBy_example =
    run-SentBy (committing restore) cfg (ticked false env ∷ done ∷ []) relay 2 (inr (inl refl))
      (λ m. elim m [ inl e ↦ cc | inr b ↦ b ])

process_shard-sent_example : Justified worker batch (check worker.was_sent batch).pending 1
unfolding check_one check mark_one mark recovered send_failed after_send after_check when_live
    process_shard
process_shard-sent_example = process_shard-sent worker batch 1 (inr (inl refl))

no_panic : (id : ℕ) (why : Text) → worker.was_sent id ≢ Answer.panics why
no_panic id why h = ground arith

process_shard-settles_example :
    let (out, stopped) = process_shard worker batch in
    (count 3 out.sent + count 3 (retry_ids out.retry) ≡ count 3 (ids batch))
    × (out.paused ≡ false)
    × (stopped ≡ false)
unfolding check_one check
process_shard-settles_example =
    process_shard-settles worker batch (none ∷ some (ascii "no such box") ∷ []) 3
      (record { checks = no_panic; marks = λ id. refl }) refl refl refl

abbrev down : Observed
down = record worker { send_batch = λ ms. failed provider (some (pos 7)) }

process_shard-call_failed_example :
    let (out, stopped) = process_shard down batch in
    (out.retry ≡ [])
    × (out.delivered ≡ 0)
    × (out.sent ≡ (check down.was_sent batch).already)
    × (stopped ≡ true)
    × (out.pause ≡ hint_or_zero (some (pos 7)))
    × ((out.paused ≡ true) ⊎ ((provider ≡ canceled) × (down.sibling_paused ≡ false)))
unfolding check_one check
process_shard-call_failed_example =
    process_shard-call_failed down batch provider (some (pos 7))
      (record { checks = no_panic; marks = λ id. refl }) refl (λ e. cc) refl

collect-settles_example :
    let outcomes = (process_shard worker batch).0 ∷ (process_shard down batch).0 ∷ [] in
    let t = collect (λ d. d) (pos 5) outcomes in
    let again = flatten (map (λ o. o.retry) outcomes) in
    (t.sent ≡ flatten (map (λ o. o.sent) outcomes))
    × (t.fail ≡ map to_failure (keep (is_spent (pos 5)) again))
    × (t.reschedule ≡ map (to_retry (λ d. d)) (keep (λ it. not (is_spent (pos 5) it)) again))
    × (t.delivered ≡ sum_delivered outcomes)
    × (t.paused ≡ any_paused outcomes)
collect-settles_example =
    collect-settles (λ d. d) (pos 5)
      ((process_shard worker batch).0 ∷ (process_shard down batch).0 ∷ [])

shard_by-partition_example :
    (flatten (shard_by batch (pos 2)) ≡ batch)
    × (length (shard_by batch (pos 2)) ≤ max 2 1)
    × All (λ s. (1 ≤ length s) × (length s ≤ shard_size (pos 2) 3)) (shard_by batch (pos 2))
shard_by-partition_example = shard_by-partition batch (pos 2)

abbrev steady : IsJitter (λ d. d)
steady = record {
  amount = λ d. d;
  amount_lem = λ d. refl;
  lower = λ d. omega arith;
  upper = λ d. omega arith;
}

backoff_bounds_example :
    let d = min (3 ^ 4 * second) backoff_cap in
    (k : ℕ) × (backoff (λ d. d) 3 ≡ pos k)
    × (0 < k)
    × (9 * d ≤ 10 * k + 10)
    × (10 * k ≤ 11 * d + 10)
backoff_bounds_example = backoff_bounds (λ d. d) steady 3 (omega arith) (omega arith)

base_delay_overflow_example : (k : ℕ) × (base_delay 320 ≡ negsuc k)
base_delay_overflow_example = base_delay_overflow 320 (omega arith) (omega arith)

truncate_utf8-fits_example :
    (length (truncate_utf8 (97 ∷ 0xc3 ∷ 0xa9 ∷ 98 ∷ []) 2) ≤ 2)
    × (to_valid_utf8 (truncate_utf8 (97 ∷ 0xc3 ∷ 0xa9 ∷ 98 ∷ []) 2)
        ≡ truncate_utf8 (97 ∷ 0xc3 ∷ 0xa9 ∷ 98 ∷ []) 2)
truncate_utf8-fits_example = truncate_utf8-fits (97 ∷ 0xc3 ∷ 0xa9 ∷ 98 ∷ []) 2

-- The delivery panics.
abbrev crash : Call
crash = record { ended = none; is_open = false; send = panics (ascii "nil map"); parent = none }

abbrev by_email : Observed
by_email = record worker { send_batch = λ ms. send_batch (pos 9) crash ms }

send_batch-Settles_example : Settles by_email (pos 9) crash batch
unfolding check_one check
send_batch-Settles_example =
    send_batch-Settles by_email (pos 9) crash batch
      (record { checks = no_panic; marks = λ id. refl }) refl (λ e. cc) (λ msgs. refl)
