-- ===== src/Persistence/Messages.antt =====
-- `OutboxRepo.Enqueue` of internal/infrastructure/persistence/outbox.go, as the services call it. The
-- statements that the relay sends are in Outbox/Table.antt.
use task_tracker.Base.{suc}
use task_tracker.Tx.{ok}
use task_tracker.Outbox.{Message}
use task_tracker.Outbox.Table.{Session}
use task_tracker.Outbox.Table
use task_tracker.Store.{Env, Db, exec}

module _ (env : Env) where
  -- `Enqueue`
  unfoldable pub enqueue : Message → Db (Unit {0})
  enqueue msg = exec env (λ w.
      let id = w.counters.next_message in
      (
        ok tt,
        record w {
          tables = record w.tables {
            outbox = Table.enqueue (env.time w.sent) id msg w.tables.outbox;
          };
          counters = record w.counters { next_message = suc id };
        },
      ))
