-- ===== src/Outbox/Tick.antt =====
-- `tick`, `dispatch` and `pause` of internal/infrastructure/outbox/relay.go. A tick is one transaction
-- over the table; the variable `s` that its body captures, and that a rollback leaves alone, stands in
-- the state beside the rows. Workers run concurrently: what each of them met is an argument, one
-- `Observed` for each shard, so a theorem about every argument covers every interleaving.
pub mod Rows
pub mod Safety
use task_tracker.Base.{
  ℕ, zero, suc, ◌+◌, Bool, true, false, Option, none, some, List, [], ◌∷◌, map, length, Text, ascii,
  ltb_ℤ, ℤ, pos, negsuc, pos_part, ltb, leb_ℤ, if◌then◌else◌,
}
use task_tracker.Tx.{Outcome, ok, err, panicked, Action, ◌>>=◌, ◌>>◌, pure, TxManager}
use task_tracker.Outbox.{Config, Claimed, Retry, Failure, default_pause}
use task_tracker.Outbox.Shard.{shard_by}
use task_tracker.Outbox.Process.{Observed, ShardOutcome, process_shard}
use task_tracker.Outbox.Collect.{Settlement, no_settlement, collect}
use task_tracker.Outbox.Table.{Row, Session, claim, delete, reschedule, mark_failed}

-- What a statement does besides its work.
pub data Fault : Type 0 where
  fine : Fault
  fails : Text → Fault
  panics : Fault

pub record Environment : Type 0 where
  pub session : Session
  -- `time.Now()` when the tick starts, and when it pauses the relay
  pub now : ℕ
  pub pause_now : ℕ
  pub observed : ℕ → Observed
  pub jitter : ℤ → ℤ
  pub claim_fault : Fault
  pub delete_fault : Fault
  pub reschedule_fault : Fault
  pub fail_fault : Fault

pub record Body : Type 0 where
  pub rows : List Row
  pub settled : Settlement

-- A rollback restores the rows, and no captured variable.
abbrev pub restore : Body → Body → Body
restore before after = record after { rows = before.rows }

abbrev pub Step : Type 0 → Type 0
Step = Action Body Text

-- A statement that meets a fault changes nothing.
abbrev pub guarded : {A : Type 0} → Fault → Step A → Step A
guarded fine m = m
guarded (fails e) m = λ b. (err e, b)
guarded panics m = λ b. (panicked, b)

-- A statement that is not sent when it has nothing to do.
abbrev pub unless_empty : {A : Type 0} → List A → Step (Unit {0}) → Step (Unit {0})
unless_empty [] m = pure tt
unless_empty (_ ∷ _) m = m

abbrev on_rows : (List Row → List Row) → Step (Unit {0})
on_rows f b = (ok tt, record b { rows = f b.rows })

unfoldable pub outcomes_from : (ℕ → Observed) → ℕ → List (List Claimed) → List ShardOutcome
outcomes_from observed i [] = []
outcomes_from observed i (shard ∷ shards) =
    (process_shard (observed i) shard).0 ∷ outcomes_from observed (suc i) shards

-- `dispatch`: every shard is processed by a worker of its own.
unfoldable pub dispatch : Environment → Config → List Claimed → Settlement
unfolding outcomes_from
dispatch env cfg claimed =
    collect env.jitter cfg.max_attempts
      (outcomes_from env.observed 0 (shard_by claimed cfg.workers))

-- MySQL refuses a negative `LIMIT`.
unfoldable pub claim_step : Environment → Config → Step (List Claimed)
claim_step env cfg =
    if ltb_ℤ cfg.batch (pos 0)
    then guarded (fails (ascii "select claim")) claimed
    else guarded env.claim_fault claimed
  where
    claimed : Step (List Claimed)
    claimed b = (ok (claim env.session cfg.batch b.rows), b)

unfoldable pub set_settled : Settlement → Step (Unit {0})
set_settled s b = (ok tt, record b { settled = s })

-- The three statements that settle a batch.
abbrev delete_step : Environment → Settlement → Step (Unit {0})
delete_step env s = unless_empty s.sent (guarded env.delete_fault (on_rows (delete s.sent)))

abbrev reschedule_step : Environment → Settlement → Step (Unit {0})
reschedule_step env s =
    unless_empty s.reschedule
      (guarded env.reschedule_fault (on_rows (reschedule env.session s.reschedule)))

abbrev fail_step : Environment → Settlement → Step (Unit {0})
fail_step env s = unless_empty s.fail (guarded env.fail_fault (on_rows (mark_failed s.fail)))

unfoldable pub settle : Environment → Settlement → Step (Unit {0})
settle env s = do delete_step env s; reschedule_step env s; fail_step env s

-- What follows a claim.
unfoldable pub settle_claimed : Environment → Config → List Claimed → Step (Unit {0})
unfolding set_settled settle
settle_claimed env cfg [] = pure tt
settle_claimed env cfg (c ∷ claimed) = do
  set_settled (dispatch env cfg (c ∷ claimed))
  settle env (dispatch env cfg (c ∷ claimed))

-- The function that `tick` hands to `tx.Do`.
unfoldable pub tick_body : Environment → Config → Step (Unit {0})
unfolding claim_step settle_claimed
tick_body env cfg = do claimed ← claim_step env cfg; settle_claimed env cfg claimed

pub record Relay : Type 0 where
  pub paused_until : ℕ
  pub rows : List Row
  pub sent_total : ℕ
  pub failed_total : ℕ
  pub tick_errors : ℕ

-- `pause`
abbrev pub pause_until : ℕ → ℤ → ℕ
pause_until now hint = now + (if leb_ℤ hint (pos 0) then default_pause else pos_part hint)

-- The end of a tick, by how the transaction ended.
unfoldable pub finish : Environment → Relay → Outcome Text (Unit {0}) × Body → Relay
finish env r (panicked, b) = record r {
  paused_until = pause_until env.pause_now (pos default_pause);
  rows = b.rows;
  tick_errors = suc r.tick_errors;
}
finish env r (err e, b) = record r {
  paused_until =
      if b.settled.paused then pause_until env.pause_now b.settled.pause else r.paused_until;
  rows = b.rows;
  tick_errors = suc r.tick_errors;
}
finish env r (ok _, b) = record r {
  paused_until =
      if b.settled.paused then pause_until env.pause_now b.settled.pause else r.paused_until;
  rows = b.rows;
  sent_total = r.sent_total + b.settled.delivered;
  failed_total = r.failed_total + length b.settled.fail;
}

unfoldable pub tick : TxManager Body Text restore → Environment → Config → Relay → Relay
unfolding finish
tick tx env cfg r =
    if ltb env.now r.paused_until
    then r
    else finish env r
        (tx.do_tx (tick_body env cfg) (record { rows = r.rows; settled = no_settlement }))
