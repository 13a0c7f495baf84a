-- ===== src/Outbox/Run.antt =====
-- `Run` and `Drain` of internal/infrastructure/outbox/relay.go. What `Run` waits for arrives as signals;
-- between its ticks other transactions put messages into the outbox.
use task_tracker.Base.{
  ℕ, Bool, true, false, Option, none, some, List, [], ◌∷◌, Text, ascii, if◌then◌else◌,
}
use task_tracker.Tx.{TxManager}
use task_tracker.Outbox.{Config, Message}
use task_tracker.Outbox.Table.{enqueue}
use task_tracker.Outbox.Tick.{Environment, Body, restore, Relay, tick}
pub mod Safety

-- The context is done; the ticker fires, perhaps in a context that has ended; a message is enqueued.
pub data Signal : Type 0 where
  done : Signal
  ticked : (ended : Bool) → Environment → Signal
  enqueued : (now id : ℕ) → Message → Signal

-- Whether `Run` has returned and closed its channel, and the relay.
pub record Running : Type 0 where
  pub closed : Bool
  pub relay : Relay

module _ (tx : TxManager Body Text restore) (cfg : Config) where
  unfoldable pub run : List Signal → Relay → Running
  run [] r = record { closed = false; relay = r }
  run (done ∷ signals) r = record { closed = true; relay = r }
  run (ticked true env ∷ signals) r = record { closed = true; relay = r }
  run (ticked false env ∷ signals) r = run signals (tick tx env cfg r)
  run (enqueued now id m ∷ signals) r = run signals (record r { rows = enqueue now id m r.rows })

-- `Drain`: nil when the channel is closed, or the error of the context that ended first.
unfoldable pub drain : Running → Option Text
drain r = if r.closed then none else some (ascii "outbox relay is still settling")
