-- ===== src/Examples/Data.antt =====
-- What the examples share: a transaction manager that always commits, and a batch of three messages.
use task_tracker.Base.{
  ℕ, ap, false, none, some, List, [], ◌∷◌, map, Text, ascii, pos, inl, ◌==◌, if◌then◌else◌,
}
use task_tracker.Tx.{Outcome, ok, err, panicked, TxManager}
use task_tracker.Outbox.{Message, Claimed, Config, SendResult, second}
use task_tracker.Outbox.Process.{Observed, Answer, live, results}
use task_tracker.Outbox.Table.{Row, pending}
use task_tracker.Outbox.Tick.{Environment, Relay, fine}

module _ {S E : Type 0} (restore : S → S → S) where
  abbrev ended : {A : Type 0} → S → Outcome E A × S → Outcome E A × S
  ended s (ok a, s') = (ok a, s')
  ended s (err e, s') = (err e, restore s s')
  ended s (panicked, s') = (panicked, restore s s')

  -- Every commit goes through.
  abbrev pub committing : TxManager S E restore
  committing = record {
    do_tx = λ m s. ended s (m s);
    on_ok = λ m s s' a h. inl (ap (ended s) h);
    on_err = λ m s s' e h. ap (ended s) h;
    on_panic = λ m s s' h. ap (ended s) h;
  }

abbrev mail : Text → Message
mail recipient = record { recipient = recipient; subject = ascii "s"; body = ascii "b" }

abbrev pub row : ℕ → Text → ℕ → Row
row id recipient attempts = record {
  id = id;
  message = mail recipient;
  status = pending;
  attempts = attempts;
  next_retry_at = none;
  last_error = none;
  created_at = 1;
}

abbrev pub rows : List Row
rows = row 1 (ascii "a") 0 ∷ row 2 (ascii "b") 0 ∷ row 3 (ascii "c") 4 ∷ []

abbrev pub batch : List Claimed
batch = map (λ r. record { message = r.message; id = r.id; attempts = r.attempts }) rows

abbrev accepts : Message → SendResult
accepts m = elim m.recipient [
  | [] ↦ none
  | b ∷ _ ↦ if b == 99 then some (ascii "no such box") else none
]

-- The second message had been sent before; the provider refuses the third.
abbrev pub worker : Observed
worker = record {
  ctx = live;
  was_sent = λ id. if id == 2 then Answer.sent else Answer.unsent;
  send_batch = λ ms. results (map accepts ms);
  sibling_paused = false;
  mark_panics = λ _. none;
}

abbrev pub cfg : Config
cfg = record {
  tick = pos second;
  budget = pos second;
  dedup_ttl = pos second;
  batch = pos 10;
  workers = pos 2;
  max_attempts = pos 5;
}

abbrev pub env : Environment
env = record {
  session = record { now = 10; date_add = λ d. 20; locked = λ _. false };
  now = 10;
  pause_now = 10;
  observed = λ _. worker;
  jitter = λ d. d;
  claim_fault = fine;
  delete_fault = fine;
  reschedule_fault = fine;
  fail_fault = fine;
}

abbrev pub relay : Relay
relay = record { paused_until = 0; rows = rows; sent_total = 0; failed_total = 0; tick_errors = 0 }
