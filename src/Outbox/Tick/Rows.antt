-- ===== src/Outbox/Tick/Rows.antt =====
-- What a tick does to the rows: all of its settlement, or nothing.
use task_tracker.Base.{
  suc, ◌+◌, ◌<◌, length, ltb→lt, ◌≡◌, ◌≢◌, refl, sym, subst, ap, ◌∙◌, List, [], ◌∷◌, ltb, ◌⊎◌, inl,
  inr, Bool-cases, Text, ascii, Bool, true, false, ltb_ℤ, pos, if◌then◌else◌,
}
use task_tracker.Tx.{Outcome, ok, err, panicked, ◌>>=◌, ◌>>◌, TxManager, do_tx-cases, bind-ok}
use task_tracker.Outbox.{Config, Claimed}
use task_tracker.Outbox.Collect.{Settlement, no_settlement}
use task_tracker.Outbox.Table.{Row, Session, claim, delete, reschedule, mark_failed}
use task_tracker.Outbox.Shard.Partition.{shard_by-nil}
use task_tracker.Outbox.Collect.Attempts.{collect-nil}
use task_tracker.Outbox.Table.Rows.{delete_nothing, reschedule_nothing, fail_nothing}
use task_tracker.Outbox.Tick.{
  Fault, fine, fails, panics, Environment, Body, restore, Step, guarded, unless_empty, dispatch,
  claim_step, set_settled, settle, settle_claimed, outcomes_from, tick_body, Relay, finish, tick,
}

-- The rows after the three statements of a settlement.
abbrev pub settle_rows : Session → Settlement → List Row → List Row
settle_rows session s rows =
    mark_failed s.fail (reschedule session s.reschedule (delete s.sent rows))

-- When the step returns nil it has turned the body's state by `g`.
abbrev Does : Step (Unit {0}) → (Body → Body) → Type 0
Does m g = (b : Body) → (m b).0 ≡ ok tt → (m b).1 ≡ g b

Does-then :
    (m k : Step (Unit {0})) (g h : Body → Body) → Does m g → Does k h → Does (m >> k) (λ b. h (g b))
Does-then m k g h dm dk b e =
    let (_, first, more, rest) = bind-ok m (λ _. k) b tt e in
    ap (λ p. p.1) rest ∙ dk (m b).1 more ∙ ap h (dm b first)

abbrev with_rows : (List Row → List Row) → Body → Body
with_rows g b = record b { rows = g b.rows }

-- One statement that goes through.
statement :
    {A : Type 0} (f : Fault) (xs : List A) (g : List Row → List Row)
    → (xs ≡ [] → (rows : List Row) → g rows ≡ rows)
    → Does (unless_empty xs (guarded f (λ (c : Body). (ok tt, with_rows g c)))) (with_rows g)
statement f [] g nothing b h = λ i. record b { rows = sym (nothing refl b.rows) i }
statement fine (x ∷ xs) g nothing b h = refl
statement (fails e) (x ∷ xs) g nothing b h = cc
statement panics (x ∷ xs) g nothing b h = cc

settle-Does :
    (env : Environment) (s : Settlement)
    → Does (settle env s) (with_rows (settle_rows env.session s))
unfolding settle
settle-Does env s =
    let d =
      statement env.delete_fault s.sent (delete s.sent) (λ e rows. rw e (delete_nothing rows)) in
    let r =
      statement env.reschedule_fault s.reschedule (reschedule env.session s.reschedule)
        (λ e rows. rw e (reschedule_nothing env.session rows)) in
    let f =
      statement env.fail_fault s.fail (mark_failed s.fail) (λ e rows. rw e (fail_nothing rows)) in
    Does-then _ _ _ _ d (Does-then _ _ _ _ r f)

dispatch_nothing : (env : Environment) (cfg : Config) → dispatch env cfg [] ≡ no_settlement
unfolding dispatch outcomes_from
dispatch_nothing env cfg =
    rw (shard_by-nil {A = Claimed} cfg.workers) (collect-nil env.jitter cfg.max_attempts)

abbrev start : List Row → Body
start rows = record { rows = rows; settled = no_settlement }

module _ (env : Environment) (cfg : Config) where
  settle_claimed-Does :
      (claimed : List Claimed) (rows : List Row)
      → let s = dispatch env cfg claimed in
        (settle_claimed env cfg claimed (start rows)).0 ≡ ok tt
        → (settle_claimed env cfg claimed (start rows)).1
          ≡ record { rows = settle_rows env.session s rows; settled = s }
  unfolding settle_claimed set_settled
  settle_claimed-Does [] rows e =
      rw (dispatch_nothing env cfg, delete_nothing, reschedule_nothing, fail_nothing) refl
  settle_claimed-Does (c ∷ claimed) rows e = settle-Does env (dispatch env cfg (c ∷ claimed)) _ e

  tick_body-commits :
      (rows : List Row)
      → let s = dispatch env cfg (claim env.session cfg.batch rows) in
        (tick_body env cfg (start rows)).0 ≡ ok tt
        → (tick_body env cfg (start rows)).1
          ≡ record { rows = settle_rows env.session s rows; settled = s }
  unfolding tick_body claim_step
  tick_body-commits rows e = go (ltb_ℤ cfg.batch (pos 0)) env.claim_fault e
    where
      go :
          (negative : Bool) (f : Fault)
          → let claimed : Step (List Claimed) = λ b. (ok (claim env.session cfg.batch b.rows), b) in
            let m =
              ((if negative
                    then guarded (fails (ascii "select claim")) claimed
                    else guarded f claimed)
                  >>= settle_claimed env cfg)
                (start rows) in
            let s = dispatch env cfg (claim env.session cfg.batch rows) in
            m.0 ≡ ok tt → m.1 ≡ record { rows = settle_rows env.session s rows; settled = s }
      go true f h = cc
      go false fine h = settle_claimed-Does (claim env.session cfg.batch rows) rows h
      go false (fails x) h = cc
      go false panics h = cc

  -- What a tick leaves when its transaction went through.
  pub record Committed (r r' : Relay) : Type 0 where
    pub rows :
        r'.rows
        ≡ settle_rows env.session (dispatch env cfg (claim env.session cfg.batch r.rows)) r.rows
    pub sent :
        r'.sent_total
        ≡ r.sent_total + (dispatch env cfg (claim env.session cfg.batch r.rows)).delivered
    pub failed :
        r'.failed_total
        ≡ r.failed_total + length (dispatch env cfg (claim env.session cfg.batch r.rows)).fail
    pub errors : r'.tick_errors ≡ r.tick_errors

  finish_ok :
      (r : Relay) (b : Body)
      → let s = dispatch env cfg (claim env.session cfg.batch r.rows) in
        b ≡ record { rows = settle_rows env.session s r.rows; settled = s }
        → Committed r (finish env r (ok tt, b))
  unfolding finish
  finish_ok r b e = record {
    rows = ap (λ c. c.rows) e;
    sent = ap (λ c. r.sent_total + c.settled.delivered) e;
    failed = ap (λ c. r.failed_total + length c.settled.fail) e;
    errors = refl;
  }

  finish_failed :
      (r : Relay) (o : Outcome Text (Unit {0})) (b : Body)
      → o ≢ ok tt
      → ((finish env r (o, b)).rows ≡ b.rows)
        × ((finish env r (o, b)).tick_errors ≡ suc r.tick_errors)
        × ((finish env r (o, b)).sent_total ≡ r.sent_total)
        × ((finish env r (o, b)).failed_total ≡ r.failed_total)
  unfolding finish
  finish_failed r (ok _) b ne = absurd (ne refl)
  finish_failed r (err e) b ne = (refl, refl, refl, refl)
  finish_failed r panicked b ne = (refl, refl, refl, refl)

  -- A tick is atomic. Either the relay is paused at its start and nothing changes; or the
  -- transaction goes through, and the rows are those of the whole settlement of the claimed batch
  -- (deletions, then reschedulings, then failures), the sent counter grows by the deliveries, the
  -- failed counter by the messages given up, and no tick error is counted; or no row changes,
  -- nothing is counted as sent or failed, and one more tick error is counted.
  pub tick-atomic :
      (tx : TxManager Body Text restore) (r : Relay)
      → let r' = tick tx env cfg r in
        ((env.now < r.paused_until) × (r' ≡ r))
        ⊎ Committed r r'
        ⊎ ((r'.rows ≡ r.rows)
            × (r'.tick_errors ≡ suc r.tick_errors)
            × (r'.sent_total ≡ r.sent_total)
            × (r'.failed_total ≡ r.failed_total))
  unfolding tick
  tick-atomic tx r = elim (Bool-cases (ltb env.now r.paused_until)) [
    | inl paused ↦ inl (ltb→lt _ _ paused, rw paused)
    | inr awake ↦ rw awake (elim (do_tx-cases tx (tick_body env cfg) (start r.rows)) [
      | inl (_, went, same) ↦ inr (
          inl (
            subst (λ p. Committed r (finish env r p))
              (sym (same ∙ (λ i. (went i, (tick_body env cfg (start r.rows)).1))))
              (finish_ok r (tick_body env cfg (start r.rows)).1 (tick_body-commits r.rows went))))
      | inr (undone, not_ok) ↦
          let d = tx.do_tx (tick_body env cfg) (start r.rows) in
          let (rows, errors, sent, failed) = finish_failed r d.0 d.1 (not_ok tt) in
          inr (inr (rows ∙ ap (λ b. b.rows) undone, errors, sent, failed))
    ])
  ]
