-- ===== src/Outbox/Tick/Safety.antt =====
-- No message is lost: what a tick deletes was sent.
use task_tracker.Base.{
  ℕ, suc, ◌≡◌, sym, subst, ap, ◌∙◌, false, List, [], ◌∷◌, map, flatten, contains, In, In-append,
  In-append_left, In-append_right, In-map, contains→In, Bool-cases, ◌⊎◌, inl, inr, Text,
}
use task_tracker.Tx.{TxManager}
use task_tracker.Outbox.{Config, Claimed}
use task_tracker.Outbox.Shard.{shard_by}
use task_tracker.Outbox.Shard.Partition.{shard_by-partition}
use task_tracker.Outbox.Process.{Observed, Answer, check, process_shard}
use task_tracker.Outbox.Process.Delivery.{Accepted, process_shard-sent}
use task_tracker.Outbox.Collect.Attempts.{collect-settles}
use task_tracker.Outbox.Table.{Row, claim, delete, reschedule}
use task_tracker.Outbox.Table.Rows.{row_ids, row_ids-reschedule, row_ids-mark_failed, delete-keeps}
use task_tracker.Outbox.Tick.{Environment, Body, restore, outcomes_from, dispatch, Relay, tick}
use task_tracker.Outbox.Tick.Rows.{settle_rows, tick-atomic}

-- In some shard that some worker processed, a claimed message with this identifier was known to the
-- dedup store or accepted by the provider.
pub record Sent (observed : ℕ → Observed) (claimed : List Claimed) (id : ℕ) : Type 0 where
  pub worker : ℕ
  pub shard : List Claimed
  pub message : Claimed
  pub was_claimed : In message claimed
  pub named : message.id ≡ id
  pub justified :
      ((observed worker).was_sent message.id ≡ Answer.sent)
      ⊎ Accepted (observed worker) (check (observed worker).was_sent shard).pending message

outcomes-sent :
    (observed : ℕ → Observed) (i : ℕ) (shards : List (List Claimed)) (id : ℕ)
    → In id (flatten (map (λ o. o.sent) (outcomes_from observed i shards)))
    → Sent observed (flatten shards) id
unfolding outcomes_from
outcomes-sent observed i [] id m = absurd m
outcomes-sent observed i (shard ∷ shards) id m =
    elim (In-append id (process_shard (observed i) shard).0.sent _ m) [
      | inl here ↦
          let (c, at, same, why) = process_shard-sent (observed i) shard id here in
          record {
            worker = i;
            shard = shard;
            message = c;
            was_claimed = In-append_left c shard (flatten shards) at;
            named = same;
            justified = why;
          }
      | inr later ↦
          let s = outcomes-sent observed (suc i) shards id later in
          record {
            worker = s.worker;
            shard = s.shard;
            message = s.message;
            was_claimed = In-append_right s.message shard (flatten shards) s.was_claimed;
            named = s.named;
            justified = s.justified;
          }
    ]

pub dispatch-sent :
    (env : Environment) (cfg : Config) (claimed : List Claimed) (id : ℕ)
    → In id (dispatch env cfg claimed).sent
    → Sent env.observed claimed id
unfolding dispatch
dispatch-sent env cfg claimed id m =
    let shards = shard_by claimed cfg.workers in
    let all = collect-settles env.jitter cfg.max_attempts (outcomes_from env.observed 0 shards) in
    subst (λ cs. Sent env.observed cs id) (shard_by-partition claimed cfg.workers).0
      (outcomes-sent env.observed 0 shards id (subst (In id) all.0 m))

settle_rows-keeps :
    (env : Environment) (cfg : Config) (rows : List Row) (row : Row)
    → let s = dispatch env cfg (claim env.session cfg.batch rows) in
      In row rows
      → contains s.sent row.id ≡ false
      → In row.id (row_ids (settle_rows env.session s rows))
settle_rows-keeps env cfg rows row m h =
    let s = dispatch env cfg (claim env.session cfg.batch rows) in
    subst (In row.id)
      (sym (
        row_ids-mark_failed s.fail (reschedule env.session s.reschedule (delete s.sent rows))
        ∙ row_ids-reschedule env.session s.reschedule (delete s.sent rows)))
      (delete-keeps s.sent row rows m h)

-- If a row stands in the outbox before a tick and no row with its identifier does after it, then
-- the tick had claimed a message with that identifier which the dedup store knew to be sent, or for
-- which the provider returned a nil error in an answer with one verdict for each message. Nothing
-- is assumed of what the workers meet, panics, pauses and failed calls included, nor of the faults
-- of the database.
pub tick-Sent :
    (tx : TxManager Body Text restore) (env : Environment) (cfg : Config) (r : Relay) (row : Row)
    → In row r.rows
    → ¬ In row.id (row_ids (tick tx env cfg r).rows)
    → Sent env.observed (claim env.session cfg.batch r.rows) row.id
tick-Sent tx env cfg r row m gone = elim (tick-atomic env cfg tx r) [
  | inl (_, same) ↦ absurd (gone (stays (ap (λ x. x.rows) same)))
  | inr (inr (same, _, _, _)) ↦ absurd (gone (stays same))
  | inr (inl done) ↦
      let s = dispatch env cfg (claim env.session cfg.batch r.rows) in
      elim (Bool-cases (contains s.sent row.id)) [
        | inl hit ↦ dispatch-sent env cfg _ row.id (contains→In row.id s.sent hit)
        | inr miss ↦ absurd (
            gone (
              subst (λ rs. In row.id (row_ids rs)) (sym done.rows)
                (settle_rows-keeps env cfg r.rows row m miss)))
      ]
]
  where
    stays : (tick tx env cfg r).rows ≡ r.rows → In row.id (row_ids (tick tx env cfg r).rows)
    stays e = subst (λ rs. In row.id (row_ids rs)) (sym e) (In-map (λ x. x.id) row r.rows m)
