-- ===== src/Outbox/Table/Rows.antt =====
-- The statements on the rows, seen from their callers.
use mathlib.Core.Path.{ap₂}
use task_tracker.Base.{
  ℕ, ◌≡◌, refl, ap, false, Option, none, some, List, [], ◌∷◌, map, contains, In, In-map, In-keep,
}
use task_tracker.Outbox.{Retry, Failure}
use task_tracker.Outbox.Table.{
  Row, Session, delete, reschedule, mark_failed, reschedule_with, fail_with, retry_of, failure_of,
}

pub delete_nothing : (rows : List Row) → delete [] rows ≡ rows
unfolding delete
delete_nothing [] = refl
delete_nothing (r ∷ rows) = ap (λ rs. r ∷ rs) (delete_nothing rows)

pub reschedule_nothing : (s : Session) (rows : List Row) → reschedule s [] rows ≡ rows
unfolding reschedule
reschedule_nothing s [] = refl
reschedule_nothing s (r ∷ rows) = ap (λ rs. r ∷ rs) (reschedule_nothing s rows)

pub fail_nothing : (rows : List Row) → mark_failed [] rows ≡ rows
unfolding mark_failed
fail_nothing [] = refl
fail_nothing (r ∷ rows) = ap (λ rs. r ∷ rs) (fail_nothing rows)

abbrev pub row_ids : List Row → List ℕ
row_ids rows = map (λ r. r.id) rows

-- Neither update of a row touches its key.
reschedule_with-id :
    (s : Session) (arm : Option Retry) (r : Row) → (reschedule_with s arm r).id ≡ r.id
reschedule_with-id s none r = refl
reschedule_with-id s (some it) r = refl

fail_with-id : (arm : Option Failure) (r : Row) → (fail_with arm r).id ≡ r.id
fail_with-id none r = refl
fail_with-id (some it) r = refl

pub row_ids-reschedule :
    (s : Session) (items : List Retry) (rows : List Row)
    → row_ids (reschedule s items rows) ≡ row_ids rows
unfolding reschedule
row_ids-reschedule s items [] = refl
row_ids-reschedule s items (r ∷ rows) =
    ap₂ (λ x xs. x ∷ xs) (reschedule_with-id s (retry_of items r.id) r)
      (row_ids-reschedule s items rows)

pub row_ids-mark_failed :
    (items : List Failure) (rows : List Row) → row_ids (mark_failed items rows) ≡ row_ids rows
unfolding mark_failed
row_ids-mark_failed items [] = refl
row_ids-mark_failed items (r ∷ rows) =
    ap₂ (λ x xs. x ∷ xs) (fail_with-id (failure_of items r.id) r) (row_ids-mark_failed items rows)

-- A row stays unless its identifier is among those deleted.
pub delete-keeps :
    (ids : List ℕ) (r : Row) (rows : List Row)
    → In r rows
    → contains ids r.id ≡ false
    → In r.id (row_ids (delete ids rows))
unfolding delete
delete-keeps ids r rows m h = In-map (λ x. x.id) r _ (In-keep _ r rows m (rw h))
