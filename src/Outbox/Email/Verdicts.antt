-- ===== src/Outbox/Email/Verdicts.antt =====
-- What the relay makes of the replies of internal/infrastructure/email/client.go.
use task_tracker.Base.{
  ℕ, ◌≡◌, ◌≢◌, refl, ap, ◌∙◌, Bool, true, false, Option, none, some, List, [], ◌∷◌, ◌++◌, map,
  length, length-map, ==_iff, ascii, Text, ℤ, ◌⊎◌, inl, inr,
}
use task_tracker.Outbox.{Message, Claimed, SendResult}
use task_tracker.Outbox.Process.{
  live, Observed, Reply, results, failed, panicked, SendError, canceled, check, mark_one, mark,
  recovered, after_send, after_check, when_live, messages, process_shard, RetryItem,
}
use task_tracker.Outbox.Process.Settled.{ids, IsCalm, check_calm, process_shard-call_failed}
use task_tracker.Outbox.Email.{
  CtxError, cancelled, expired, DeliveryError, timed_out, stopped, refused, Delivery, returns,
  panics, Call, attempt, execute, send_batch,
}

-- The delivery was called: the context had not ended, and the breaker was closed.
abbrev pub Runs : Call → Type 0
Runs call = (call.ended ≡ none) × (call.is_open ≡ false)

-- The delivery was not called, or it returned an error.
abbrev pub Fails : Call → Type 0
Fails call =
    (call.ended ≢ none)
    ⊎ (call.is_open ≡ true)
    ⊎ ((e : DeliveryError) × (call.send ≡ returns (some e)))

-- The caller or the delivery was cancelled.
abbrev pub IsCancelled : Call → Type 0
IsCancelled call =
    (call.ended ≡ some cancelled)
    ⊎ (Runs call
        × ((call.parent ≡ some cancelled)
            ⊎ ((call.parent ≡ none) × (call.send ≡ returns (some stopped)))))

-- The three kinds of reply, and the calls that they come from.
abbrev Replies : Call → List Message → Reply → Type 0
Replies call msgs r =
    (Runs call × (call.send ≡ returns none) × (r ≡ results (map (λ _. none) msgs)))
    ⊎ ((why : Text) × Runs call × (call.send ≡ panics why) × (r ≡ panicked why))
    ⊎ ((kind : SendError) × (hint : Option ℤ) × Fails call
        × (kind ≡ canceled → IsCancelled call)
        × (r ≡ failed kind hint))

send_batch-Replies :
    (open_for : ℤ) (msgs : List Message) (ended : Option CtxError) (is_open : Bool)
    (send : Delivery) (parent : Option CtxError)
    → let call : Call = record { ended = ended; is_open = is_open; send = send; parent = parent } in
      Replies call msgs (send_batch open_for call msgs)
unfolding send_batch execute attempt
send_batch-Replies open_for msgs (some cancelled) is_open send parent =
    inr (inr (_, _, inl (λ e. cc), (λ e. inl refl), refl))
send_batch-Replies open_for msgs (some expired) is_open send parent =
    inr (inr (_, _, inl (λ e. cc), (λ e. cc), refl))
send_batch-Replies open_for msgs none true send parent =
    inr (inr (_, _, inr (inl refl), (λ e. cc), refl))
send_batch-Replies open_for msgs none false (panics why) parent =
    inr (inl (why, (refl, refl), refl, refl))
send_batch-Replies open_for msgs none false (returns none) parent = inl ((refl, refl), refl, refl)
send_batch-Replies open_for msgs none false (returns (some e)) (some cancelled) =
    inr (inr (_, _, inr (inr (e, refl)), (λ h. inr ((refl, refl), inl refl)), refl))
send_batch-Replies open_for msgs none false (returns (some e)) (some expired) =
    inr (inr (_, _, inr (inr (e, refl)), (λ h. cc), refl))
send_batch-Replies open_for msgs none false (returns (some timed_out)) none =
    inr (inr (_, _, inr (inr (_, refl)), (λ h. cc), refl))
send_batch-Replies open_for msgs none false (returns (some stopped)) none =
    inr (inr (_, _, inr (inr (_, refl)), (λ h. inr ((refl, refl), inr (refl, refl))), refl))
send_batch-Replies open_for msgs none false (returns (some refused)) none =
    inr (inr (_, _, inr (inr (_, refl)), (λ h. cc), refl))

mark-all :
    (mark_panics : ℕ → Option Text) (pending : List Claimed)
    → ((id : ℕ) → mark_panics id ≡ none)
    → let m = mark mark_panics pending (map (λ _. none) (messages pending)) in
      (m.sent ≡ ids pending) × (m.retry ≡ []) × (m.crash ≡ none)
unfolding mark mark_one
mark-all mark_panics [] calm = (refl, refl, refl)
mark-all mark_panics (c ∷ pending) calm =
    let (sent, retry, crash) = mark-all mark_panics pending calm in
    rw (calm c.id) (ap (λ is. c.id ∷ is) sent, retry, crash)

-- Every message of `pending` is put up for a retry with the text of the panic.
abbrev pub retried : Text → List Claimed → List RetryItem
retried why = map (λ c. record { reason = ascii "relay panic: " ++ why; claimed = c })

after_send-all :
    (o : Observed) (already : List ℕ) (pending : List Claimed)
    → ((id : ℕ) → o.mark_panics id ≡ none)
    → let (out, halted) =
        after_send o already pending (results (map (λ _. none) (messages pending))) in
      (out.sent ≡ already ++ ids pending)
      × (out.retry ≡ [])
      × (out.paused ≡ false)
      × (halted ≡ false)
unfolding after_send recovered
after_send-all o already pending calm =
    let (sent, retry, crash) = mark-all o.mark_panics pending calm in
    let verdict : Message → SendResult = λ _. none in
    let same : length (map verdict (messages pending)) ≡ length pending =
      length-map verdict (messages pending) ∙ length-map (λ (c : Claimed). c.message) pending in
    rw ((==_iff _ _).1 same, crash) (ap (λ is. already ++ is) sent, retry, refl, refl)

after_check-answered :
    (o : Observed) (already : List ℕ) (pending : List Claimed) (r : Reply)
    → pending ≢ []
    → o.send_batch (messages pending) ≡ r
    → after_check o none already pending ≡ after_send o already pending r
unfolding after_check
after_check-answered o already [] r some_pending e = absurd (some_pending refl)
after_check-answered o already (c ∷ pending) r some_pending e =
    ap (after_send o already (c ∷ pending)) e

module _ (o : Observed) (open_for : ℤ) (call : Call) (shard : List Claimed) where
  -- What a shard comes to when its provider is the email client.
  abbrev pub Settles : Type 0
  Settles =
      let c = check o.was_sent shard in
      let (out, halted) = process_shard o shard in
      (Runs call
        × (call.send ≡ returns none)
        × (out.sent ≡ c.already ++ ids c.pending)
        × (out.retry ≡ [])
        × (out.paused ≡ false)
        × (halted ≡ false))
      ⊎ ((why : Text) × Runs call
          × (call.send ≡ panics why)
          × (out.sent ≡ c.already)
          × (out.retry ≡ retried why c.pending)
          × (out.paused ≡ false)
          × (halted ≡ true))
      ⊎ (Fails call
          × (out.sent ≡ c.already)
          × (out.retry ≡ [])
          × (halted ≡ true)
          × ((out.paused ≡ true) ⊎ (IsCancelled call × (o.sibling_paused ≡ false))))

  -- Assume that the context of a worker is live, neither the dedup store nor the marking panics,
  -- some message of the shard is to be sent, and the provider is the email client. If the client
  -- runs the delivery to a nil error, the shard reports all its messages as sent and pauses
  -- nothing. If the delivery panics, every message to be sent is put up for a retry with the text
  -- of the panic, and the siblings are stopped. If the context has ended for the client, the
  -- breaker is open or the delivery returns an error, no message is put up for a retry, only what
  -- the dedup store knew is reported as sent, the siblings are stopped, and the relay is to be
  -- paused, unless the call was cancelled and no sibling had paused it.
  pub send_batch-Settles :
      IsCalm o
      → o.ctx ≡ live
      → (check o.was_sent shard).pending ≢ []
      → ((msgs : List Message) → o.send_batch msgs ≡ send_batch open_for call msgs)
      → Settles
  unfolding process_shard when_live after_send recovered
  send_batch-Settles calm alive some_pending client =
      let c = check o.was_sent shard in
      let msgs = messages c.pending in
      let (fine, _) = check_calm o.was_sent shard 0 calm.checks in
      elim (send_batch-Replies open_for msgs call.ended call.is_open call.send call.parent) [
        | inl (runs, sends, reply) ↦
            let whole =
              after_check-answered o c.already c.pending _ some_pending (client msgs ∙ reply) in
            let (sent, retry, paused, halted) = after_send-all o c.already c.pending calm.marks in
            rw (alive, fine, whole) (inl (runs, sends, sent, retry, paused, halted))
        | inr (inl (why, runs, crashes, reply)) ↦
            let whole =
              after_check-answered o c.already c.pending _ some_pending (client msgs ∙ reply) in
            rw (alive, fine, whole) (inr (inl (why, runs, crashes, refl, refl, refl, refl)))
        | inr (inr (kind, hint, fails, cancel, reply)) ↦
            let (retry, _, sent, halted, _, pause) =
              process_shard-call_failed o shard kind hint calm alive some_pending
                (client msgs ∙ reply) in
            inr (
              inr (
                fails,
                sent,
                retry,
                halted,
                elim pause [
                  | inl paused ↦ inl paused
                  | inr (is_canceled, alone) ↦ inr (cancel is_canceled, alone)
                ],
              ))
      ]
