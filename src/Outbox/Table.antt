-- ===== src/Outbox/Table.antt =====
-- internal/infrastructure/persistence/outbox.go over the table `email_outbox` of
-- migrations/00006_outbox.sql: the statements as functions of the rows, which stand in the order of
-- their primary key. What the server alone decides is the argument `Session`.
pub mod Rows
use task_tracker.Base.{
  ℕ, zero, suc, ◌+◌, ◌-◌, ◌/◌, ◌≡◌, Bool, true, false, ◌&&◌, not, Option, none, some, List, [], ◌∷◌,
  ◌++◌, map, keep, take, contains, find?, Text, ascii, ℤ, pos, negsuc, pos_part, ltb, leb, ◌==◌,
  if◌then◌else◌,
}
use task_tracker.Outbox.{Message, Claimed, Retry, Failure}
use task_tracker.Outbox.Truncate.{truncate_utf8, max_err_len}

pub data Status : Type 0 where
  pending failed : Status

pub record Row : Type 0 where
  pub id : ℕ
  pub message : Message
  pub status : Status
  pub attempts : ℕ
  pub next_retry_at : Option ℕ
  pub last_error : Option Text
  pub created_at : ℕ

-- `NOW(3)`, `DATE_ADD(NOW(3), INTERVAL n MICROSECOND)` as the column stores it, and the rows that
-- other transactions have locked.
pub record Session : Type 0 where
  pub now : ℕ
  pub date_add : ℤ → ℕ
  pub locked : ℕ → Bool

abbrev is_pending : Status → Bool
is_pending pending = true
is_pending failed = false

abbrev is_due : ℕ → Option ℕ → Bool
is_due now none = true
is_due now (some at) = leb at now

-- `Enqueue`; `id` is the value of the auto-increment counter.
unfoldable pub enqueue : ℕ → ℕ → Message → List Row → List Row
enqueue now id msg rows =
    rows
    ++ record {
      id = id;
      message = msg;
      status = pending;
      attempts = 0;
      next_retry_at = none;
      last_error = none;
      created_at = now;
    }
      ∷ []

-- The `WHERE` clause of `Claim`, and `SKIP LOCKED`.
abbrev pub is_claimable : Session → Row → Bool
is_claimable s r =
    if is_pending r.status
    then (if is_due s.now r.next_retry_at then not (s.locked r.id) else false)
    else false

abbrev pub to_claimed : Row → Claimed
to_claimed r = record { message = r.message; id = r.id; attempts = r.attempts }

unfoldable pub claim : Session → ℤ → List Row → List Claimed
claim s batch rows = map to_claimed (take (pos_part batch) (keep (is_claimable s) rows))

-- `Delete`
unfoldable pub delete : List ℕ → List Row → List Row
delete ids rows = keep (λ r. not (contains ids r.id)) rows

-- `Delay.Microseconds()`, which rounds towards zero.
abbrev pub micros : ℤ → ℤ
micros (pos n) = pos (n / 1000)
micros (negsuc n) = elim ((n + 1) / 1000) [ zero ↦ pos 0 | suc k ↦ negsuc k ]

-- The arm that `CASE id WHEN … END` takes: the first with this identifier.
abbrev pub retry_of : List Retry → ℕ → Option Retry
retry_of items id = find? (λ it. it.id == id) items

abbrev pub failure_of : List Failure → ℕ → Option Failure
failure_of items id = find? (λ it. it.id == id) items

-- The assignments of `Reschedule` and of `MarkFailed`, given the arm taken.
abbrev pub reschedule_with : Session → Option Retry → Row → Row
reschedule_with s none r = r
reschedule_with s (some it) r = record r {
  status = pending;
  attempts = r.attempts + 1;
  next_retry_at = some (s.date_add (micros it.delay));
  last_error = some (truncate_utf8 it.last_err max_err_len);
}

abbrev pub fail_with : Option Failure → Row → Row
fail_with none r = r
fail_with (some it) r = record r {
  status = failed;
  attempts = r.attempts + 1;
  last_error = some (truncate_utf8 it.last_err max_err_len);
}

-- The two updates of one row; `WHERE id IN` the identifiers of the same items.
unfoldable pub reschedule_row : Session → List Retry → Row → Row
reschedule_row s items r = reschedule_with s (retry_of items r.id) r

unfoldable pub fail_row : List Failure → Row → Row
fail_row items r = fail_with (failure_of items r.id) r

unfoldable pub reschedule : Session → List Retry → List Row → List Row
unfolding reschedule_row
reschedule s items rows = map (reschedule_row s items) rows

unfoldable pub mark_failed : List Failure → List Row → List Row
unfolding fail_row
mark_failed items rows = map (fail_row items) rows

-- The text and the arguments that `inClause` builds.
unfoldable pub placeholders : ℕ → List ℕ → Text
placeholders i [] = []
placeholders i (id ∷ ids) =
    (if ltb 0 i then ascii "," else []) ++ (ascii "?" ++ placeholders (i + 1) ids)

unfoldable pub in_clause : Text → List ℕ → Text × List ℕ
unfolding placeholders
in_clause prefix ids = (prefix ++ (ascii "(" ++ (placeholders 0 ids ++ ascii ")")), ids)
