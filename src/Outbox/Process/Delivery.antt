-- ===== src/Outbox/Process/Delivery.antt =====
-- Where the identifiers that a shard reports as sent come from. Nothing is assumed of the
-- environment: panics included.
use task_tracker.Base.{
  ℕ, ◌≡◌, refl, ap, subst, Bool, true, false, Option, none, some, List, [], ◌∷◌, Text, length, In,
  In-append, ◌==◌, Bool-cases, ==_iff, ◌⊎◌, inl, inr,
}
use task_tracker.Outbox.{Claimed, SendResult}
use task_tracker.Outbox.Process.{
  live, paused_by_sibling, cancelled, expired, CtxState, Observed, Answer, Reply, results, failed,
  panicked, ShardOutcome, Checked, check_one, check, mark_one, mark, messages, recovered,
  send_failed, canceled, deadline_exceeded, provider, SendError, after_send, after_check,
  process_shard, when_live,
}

-- The messages of a call beside the provider's verdicts.
abbrev pub verdicts : List Claimed → List SendResult → List (Claimed × SendResult)
verdicts [] rs = []
verdicts (c ∷ cs) [] = []
verdicts (c ∷ cs) (r ∷ rs) = (c, r) ∷ verdicts cs rs

-- The provider has accepted `c` in the call for `pending`.
abbrev pub Accepted : Observed → List Claimed → Claimed → Type 0
Accepted o pending c =
    (rs : List SendResult) × (o.send_batch (messages pending) ≡ results rs)
    × (length rs ≡ length pending)
    × In (c, none) (verdicts pending rs)

recovered-sent :
    (why : Option Text) (pending : List Claimed) (out : ShardOutcome)
    → (recovered why pending out).0.sent ≡ out.sent
unfolding recovered
recovered-sent none pending out = refl
recovered-sent (some why) pending out = refl

send_failed-sent :
    (sibling : Bool) (kind : SendError) (out : ShardOutcome)
    → (send_failed sibling kind out).0.sent ≡ out.sent
unfolding send_failed
send_failed-sent true kind out = refl
send_failed-sent false canceled out = refl
send_failed-sent false deadline_exceeded out = refl
send_failed-sent false provider out = refl

-- A message of the shard with this identifier for which the dedup store said yes.
abbrev Known : (ℕ → Answer) → List Claimed → ℕ → Type 0
Known was_sent shard id = (c : Claimed) × In c shard × (c.id ≡ id) × (was_sent c.id ≡ Answer.sent)

check-already :
    (was_sent : ℕ → Answer) (shard : List Claimed) (id : ℕ)
    → In id (check was_sent shard).already
    → Known was_sent shard id
unfolding check
check-already was_sent [] id m = absurd m
check-already was_sent (c ∷ shard) id m =
    go (λ h. let (d, at, same, e) = check-already was_sent shard id h in (d, inr at, same, e))
      (was_sent c.id) refl m
  where
    go :
        (In id (check was_sent shard).already → Known was_sent (c ∷ shard) id)
        → (a : Answer) → was_sent c.id ≡ a
        → In id (check_one a c (check was_sent shard)).already
        → Known was_sent (c ∷ shard) id
    go later Answer.sent e (inl same) = (c, inl refl, same, e)
    go later Answer.sent e (inr h) = later h
    go later Answer.unsent e h = later h
    go later (Answer.panics why) e h = absurd h

check_one-pending :
    (a : Answer) (c d : Claimed) (rest : Checked)
    → In d (check_one a c rest).pending
    → (c ≡ d) ⊎ In d rest.pending
unfolding check_one
check_one-pending Answer.sent c d rest m = inr m
check_one-pending Answer.unsent c d rest m = m
check_one-pending (Answer.panics why) c d rest m = absurd m

check-pending :
    (was_sent : ℕ → Answer) (shard : List Claimed) (d : Claimed)
    → In d (check was_sent shard).pending
    → In d shard
unfolding check
check-pending was_sent [] d m = m
check-pending was_sent (c ∷ shard) d m =
    elim (check_one-pending (was_sent c.id) c d (check was_sent shard) m) [
      | inl same ↦ inl same
      | inr later ↦ inr (check-pending was_sent shard d later)
    ]

verdicts-In :
    (cs : List Claimed) (rs : List SendResult) (c : Claimed) (r : SendResult)
    → In (c, r) (verdicts cs rs)
    → In c cs
verdicts-In [] rs c r m = m
verdicts-In (d ∷ cs) [] c r m = absurd m
verdicts-In (d ∷ cs) (v ∷ rs) c r (inl e) = inl (ap (λ (p : Claimed × SendResult). p.0) e)
verdicts-In (d ∷ cs) (v ∷ rs) c r (inr m) = inr (verdicts-In cs rs c r m)

-- A message with this identifier whose verdict is a nil error.
abbrev Passed : List Claimed → List SendResult → ℕ → Type 0
Passed pending rs id = (c : Claimed) × In (c, none) (verdicts pending rs) × (c.id ≡ id)

mark-sent :
    (mark_panics : ℕ → Option Text) (pending : List Claimed) (rs : List SendResult) (id : ℕ)
    → In id (mark mark_panics pending rs).sent
    → Passed pending rs id
unfolding mark
mark-sent mark_panics [] rs id m = absurd m
mark-sent mark_panics (c ∷ pending) [] id m = absurd m
mark-sent mark_panics (c ∷ pending) (v ∷ rs) id m =
    go (mark-sent mark_panics pending rs id) v (mark_panics c.id) m
  where
    go :
        (In id (mark mark_panics pending rs).sent → Passed pending rs id)
        → (w : SendResult) (panic : Option Text)
        → In id (mark_one w panic c (mark mark_panics pending rs)).sent
        → Passed (c ∷ pending) (w ∷ rs) id
    go later none none (inl same) = (c, inl refl, same)
    go later none none (inr h) = let (d, at, same) = later h in (d, inr at, same)
    go later none (some why) h = absurd h
    go later (some err) panic h = let (d, at, same) = later h in (d, inr at, same)

-- Why a message may be reported as sent.
abbrev pub Justified : Observed → List Claimed → List Claimed → ℕ → Type 0
Justified o shard pending id =
    (c : Claimed) × In c shard
    × (c.id ≡ id)
    × ((o.was_sent c.id ≡ Answer.sent) ⊎ Accepted o pending c)

module _ (o : Observed) (shard : List Claimed) (id : ℕ) where
  known : (pending : List Claimed) → Known o.was_sent shard id → Justified o shard pending id
  known pending (c, at, same, e) = (c, at, same, inl e)

  after_send-sent :
      (already : List ℕ) (pending : List Claimed) (reply : Reply)
      → o.send_batch (messages pending) ≡ reply
      → ((d : Claimed) → In d pending → In d shard)
      → (In id already → Known o.was_sent shard id)
      → In id (after_send o already pending reply).0.sent
      → Justified o shard pending id
  unfolding after_send recovered
  after_send-sent already pending (failed kind hint) e within old m =
      known pending (old (subst (In id) (send_failed-sent o.sibling_paused kind _) m))
  after_send-sent already pending (panicked why) e within old m = known pending (old m)
  after_send-sent already pending (results rs) e within old m =
      elim (Bool-cases (length rs == length pending)) [
        | inl fits ↦
            let k = mark o.mark_panics pending rs in
            elim (In-append id already k.sent
              (subst (In id) (recovered-sent k.crash pending _) (rw fits at m))) [
                | inl before ↦ known pending (old before)
                | inr now ↦
                    let (c, at, same) = mark-sent o.mark_panics pending rs id now in
                    (
                      c,
                      within c (verdicts-In pending rs c none at),
                      same,
                      inr (rs, e, (==_iff _ _).0 fits, at),
                    )
              ]
        | inr off ↦ known pending (old (rw off at m))
      ]

  after_check-sent :
      (crash : Option Text) (already : List ℕ) (pending : List Claimed)
      → ((d : Claimed) → In d pending → In d shard)
      → (In id already → Known o.was_sent shard id)
      → In id (after_check o crash already pending).0.sent
      → Justified o shard pending id
  unfolding after_check recovered
  after_check-sent (some why) already pending within old m = known pending (old m)
  after_check-sent none already [] within old m = known [] (old m)
  after_check-sent none already (c ∷ pending) within old m =
      after_send-sent already (c ∷ pending) (o.send_batch (messages (c ∷ pending))) refl within old
        m

  -- An identifier that a shard reports as sent is that of a message of the shard which the dedup
  -- store knew to be sent, or for which the provider returned a nil error in an answer with one
  -- verdict for each message. This holds for every behaviour of the context, the store and the
  -- provider, panics included.
  pub process_shard-sent :
      In id (process_shard o shard).0.sent → Justified o shard (check o.was_sent shard).pending id
  unfolding process_shard
  process_shard-sent m = go o.ctx m
    where
      go :
          (ctx : CtxState)
          → In id
              (when_live ctx (
                after_check o
                  (check o.was_sent shard).crash
                  (check o.was_sent shard).already
                  (check o.was_sent shard).pending)).0.sent
          → Justified o shard (check o.was_sent shard).pending id
      go live h =
          after_check-sent (check o.was_sent shard).crash (check o.was_sent shard).already
            (check o.was_sent shard).pending (check-pending o.was_sent shard)
            (check-already o.was_sent shard id) h
      go paused_by_sibling h = absurd h
      go cancelled h = absurd h
      go expired h = absurd h
