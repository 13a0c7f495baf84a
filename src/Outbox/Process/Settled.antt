-- ===== src/Outbox/Process/Settled.antt =====
-- A shard that meets no panic settles each of its messages once, or spends no attempt on any.
use task_tracker.Base.{
  ℕ, ◌+◌, ◌≡◌, ◌≢◌, refl, Bool, true, false, Option, none, some, List, [], ◌∷◌, map, Text, length,
  count, count-append, ==_iff, arith, inl, inr, ◌⊎◌, ℤ,
}
use task_tracker.Outbox.{Claimed, SendResult}
use task_tracker.Outbox.Process.{
  live, Observed, Answer, results, failed, RetryItem, ShardOutcome, Checked, Marked, check_one,
  check, mark_one, mark, messages, no_outcome, hint_or_zero, SendError, recovered, after_send,
  after_check, process_shard, send_failed, canceled, deadline_exceeded, provider,
}

abbrev pub ids : List Claimed → List ℕ
ids = map (λ c. c.id)

abbrev pub retry_ids : List RetryItem → List ℕ
retry_ids = map (λ r. r.claimed.id)

-- Neither the dedup store nor the marking panics.
pub record IsCalm (o : Observed) : Type 0 where
  pub checks : (id : ℕ) (why : Text) → o.was_sent id ≢ Answer.panics why
  pub marks : (id : ℕ) → o.mark_panics id ≡ none

check_one_calm :
    (a : Answer) (c : Claimed) (rest : Checked) (id : ℕ)
    → ((why : Text) → a ≢ Answer.panics why)
    → rest.crash ≡ none
    → ((check_one a c rest).crash ≡ none)
      × (count id (check_one a c rest).already + count id (ids (check_one a c rest).pending)
          ≡ count id (c.id ∷ rest.already) + count id (ids rest.pending))
unfolding check_one
check_one_calm Answer.sent c rest id calm h = (h, refl)
check_one_calm Answer.unsent c rest id calm h = ground arith
check_one_calm (Answer.panics why) c rest id calm h = absurd (calm why refl)

pub check_calm :
    (was_sent : ℕ → Answer) (shard : List Claimed) (id : ℕ)
    → ((i : ℕ) (why : Text) → was_sent i ≢ Answer.panics why)
    → ((check was_sent shard).crash ≡ none)
      × (count id (check was_sent shard).already + count id (ids (check was_sent shard).pending)
          ≡ count id (ids shard))
unfolding check
check_calm was_sent [] id calm = (refl, omega arith)
check_calm was_sent (c ∷ shard) id calm =
    let later = check_calm was_sent shard id calm in
    let here = check_one_calm (was_sent c.id) c (check was_sent shard) id (calm c.id) later.0 in
    (here.0, ground (arith, here.1, later.1))

mark_one_calm :
    (verdict : SendResult) (c : Claimed) (rest : Marked) (id : ℕ)
    → rest.crash ≡ none
    → let m = mark_one verdict none c rest in
      (m.crash ≡ none)
      × (count id m.sent + count id (retry_ids m.retry)
          ≡ count id (c.id ∷ rest.sent) + count id (retry_ids rest.retry))
unfolding mark_one
mark_one_calm none c rest id h = (h, refl)
mark_one_calm (some err) c rest id h = ground arith

mark_calm :
    (mark_panics : ℕ → Option Text) (pending : List Claimed) (rs : List SendResult) (id : ℕ)
    → ((i : ℕ) → mark_panics i ≡ none)
    → length rs ≡ length pending
    → let m = mark mark_panics pending rs in
      (m.crash ≡ none) × (count id m.sent + count id (retry_ids m.retry) ≡ count id (ids pending))
unfolding mark
mark_calm mark_panics [] rs id calm len = (refl, omega arith)
mark_calm mark_panics (c ∷ pending) [] id calm len = absurd (omega arith)
mark_calm mark_panics (c ∷ pending) (verdict ∷ rest) id calm len =
    let later = mark_calm mark_panics pending rest id calm (omega arith) in
    let here = mark_one_calm verdict c (mark mark_panics pending rest) id later.0 in
    rw (calm c.id) (here.0, ground (arith, here.1, later.1))

after_send_settles :
    (o : Observed) (already : List ℕ) (pending : List Claimed) (rs : List SendResult) (id : ℕ)
    → ((i : ℕ) → o.mark_panics i ≡ none)
    → length rs ≡ length pending
    → let (out, stopped) = after_send o already pending (results rs) in
      (count id out.sent + count id (retry_ids out.retry)
        ≡ count id already + count id (ids pending))
      × (out.paused ≡ false)
      × (stopped ≡ false)
unfolding after_send recovered
after_send_settles o already pending rs id calm len =
    let m = mark o.mark_panics pending rs in
    let (fine, sum) = mark_calm o.mark_panics pending rs id calm len in
    rw ((==_iff (length rs) (length pending)).1 len, fine)
      (omega (arith, count-append id already m.sent, sum), refl, refl)

after_check_settles :
    (o : Observed) (already : List ℕ) (pending : List Claimed) (rs : List SendResult) (id : ℕ)
    → ((i : ℕ) → o.mark_panics i ≡ none)
    → o.send_batch (messages pending) ≡ results rs
    → length rs ≡ length pending
    → let (out, stopped) = after_check o none already pending in
      (count id out.sent + count id (retry_ids out.retry)
        ≡ count id already + count id (ids pending))
      × (out.paused ≡ false)
      × (stopped ≡ false)
unfolding after_check
after_check_settles o already [] rs id calm e len = (refl, refl, refl)
after_check_settles o already (c ∷ pending) rs id calm e len =
    rw e (after_send_settles o already (c ∷ pending) rs id calm len)

-- If the context of a worker is live, neither the dedup store nor the marking panics, and the
-- provider answers with one verdict for each message it was given, then each identifier stands in
-- the sent list and the retry list of the outcome together as often as in the shard, and neither
-- the relay nor a sibling is paused.
pub process_shard-settles :
    (o : Observed) (shard : List Claimed) (rs : List SendResult) (id : ℕ)
    → IsCalm o
    → o.ctx ≡ live
    → o.send_batch (messages (check o.was_sent shard).pending) ≡ results rs
    → length rs ≡ length (check o.was_sent shard).pending
    → let (out, stopped) = process_shard o shard in
      (count id out.sent + count id (retry_ids out.retry) ≡ count id (ids shard))
      × (out.paused ≡ false)
      × (stopped ≡ false)
unfolding process_shard
process_shard-settles o shard rs id calm alive e len =
    let c = check o.was_sent shard in
    let (fine, sum) = check_calm o.was_sent shard id calm.checks in
    let done = after_check_settles o c.already c.pending rs id calm.marks e len in
    rw (alive, fine) (omega (arith, done.0, sum), done.1, done.2)

send_failed_costs_nothing :
    (sibling : Bool) (kind : SendError) (out : ShardOutcome)
    → let (out', stopped) = send_failed sibling kind out in
      (out'.sent ≡ out.sent)
      × (out'.retry ≡ out.retry)
      × (out'.delivered ≡ out.delivered)
      × (out'.pause ≡ out.pause)
      × (stopped ≡ true)
      × ((out'.paused ≡ true) ⊎ ((kind ≡ canceled) × (sibling ≡ false)))
unfolding send_failed
send_failed_costs_nothing true kind out = (refl, refl, refl, refl, refl, inl refl)
send_failed_costs_nothing false canceled out = (refl, refl, refl, refl, refl, inr (refl, refl))
send_failed_costs_nothing false deadline_exceeded out = (refl, refl, refl, refl, refl, inl refl)
send_failed_costs_nothing false provider out = (refl, refl, refl, refl, refl, inl refl)

-- If the context of a worker is live, neither the dedup store nor the marking panics, some message
-- of the shard is to be sent and the call of the provider fails as a whole, then nothing is put up
-- for a retry or counted as delivered, the sent list holds what the dedup store knew, the siblings
-- are stopped, the pause is the hint of the error or zero, and the relay is to be paused unless the
-- error is a cancellation while no sibling had paused the relay.
pub process_shard-call_failed :
    (o : Observed) (shard : List Claimed) (kind : SendError) (hint : Option ℤ)
    → IsCalm o
    → o.ctx ≡ live
    → (check o.was_sent shard).pending ≢ []
    → o.send_batch (messages (check o.was_sent shard).pending) ≡ failed kind hint
    → let (out, stopped) = process_shard o shard in
      (out.retry ≡ [])
      × (out.delivered ≡ 0)
      × (out.sent ≡ (check o.was_sent shard).already)
      × (stopped ≡ true)
      × (out.pause ≡ hint_or_zero hint)
      × ((out.paused ≡ true) ⊎ ((kind ≡ canceled) × (o.sibling_paused ≡ false)))
unfolding process_shard
process_shard-call_failed o shard kind hint calm alive some_pending e =
    let c = check o.was_sent shard in
    let (fine, _) = check_calm o.was_sent shard 0 calm.checks in
    rw (alive, fine) (go c.already c.pending some_pending e)
  where
    go :
        (already : List ℕ) (pending : List Claimed)
        → pending ≢ []
        → o.send_batch (messages pending) ≡ failed kind hint
        → let (out, stopped) = after_check o none already pending in
          (out.retry ≡ [])
          × (out.delivered ≡ 0)
          × (out.sent ≡ already)
          × (stopped ≡ true)
          × (out.pause ≡ hint_or_zero hint)
          × ((out.paused ≡ true) ⊎ ((kind ≡ canceled) × (o.sibling_paused ≡ false)))
    go already [] ne e = absurd (ne refl)
    go already (c ∷ pending) ne e =
        let start = record no_outcome { sent = already; pause = hint_or_zero hint } in
        let (a, b, c', d, f, g) = send_failed_costs_nothing o.sibling_paused kind start in
        rw e (b, c', a, f, d, g)
