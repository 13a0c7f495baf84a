-- ===== src/Outbox/Validate.antt =====
-- `Config.Validate` of internal/infrastructure/outbox/config.go, and `inClause` of
-- internal/infrastructure/persistence/outbox.go.
use task_tracker.Base.{
  ℕ, ◌+◌, ◌≤◌, ◌≡◌, ◌↔◌, refl, ap, ◌∙◌, false, none, List, [], ◌∷◌, ◌++◌, Text, length, count,
  count-append, ℤ, pos, negsuc, pos_part, arith, leb_ℤ, ltb_ℤ,
}
use task_tracker.Outbox.{Config, validate}
use task_tracker.Outbox.Table.{placeholders, in_clause}

abbrev pub IsPositive : ℤ → Type 0
IsPositive z = 1 ≤ pos_part z

leb_ℤ-IsPositive : (z : ℤ) → (leb_ℤ z (pos 0) ≡ false) ↔ IsPositive z
leb_ℤ-IsPositive (pos n) = ground arith
leb_ℤ-IsPositive (negsuc n) = ground arith

ltb_ℤ-IsPositive : (z : ℤ) → (ltb_ℤ z (pos 1) ≡ false) ↔ IsPositive z
ltb_ℤ-IsPositive (pos n) = ground arith
ltb_ℤ-IsPositive (negsuc n) = ground arith

-- A configuration of the outbox is accepted exactly when its tick and its budget are above zero and
-- its batch, its workers and its maximum of attempts are at least one.
pub validate-none_iff :
    (c : Config)
    → (validate c ≡ none) ↔ (
        IsPositive c.tick
        × IsPositive c.budget
        × IsPositive c.batch
        × IsPositive c.workers
        × IsPositive c.max_attempts)
unfolding validate
validate-none_iff c =
    let (tick, tick') = leb_ℤ-IsPositive c.tick in
    let (budget, budget') = leb_ℤ-IsPositive c.budget in
    let (batch, batch') = ltb_ℤ-IsPositive c.batch in
    let (workers, workers') = ltb_ℤ-IsPositive c.workers in
    let (attempts, attempts') = ltb_ℤ-IsPositive c.max_attempts in ground arith

placeholders-count : (i : ℕ) (ids : List ℕ) → count 63 (placeholders i ids) ≡ length ids
unfolding placeholders
placeholders-count i [] = refl
placeholders-count i (id ∷ ids) = let rest = placeholders-count (i + 1) ids in ground arith

-- The text of an IN clause has as many placeholders as the clause has arguments, besides those of
-- its prefix.
pub in_clause-count :
    (prefix : Text) (ids : List ℕ)
    → let (text, args) = in_clause prefix ids in count 63 text ≡ count 63 prefix + length args
unfolding in_clause
in_clause-count prefix ids =
    let counted = placeholders-count 0 ids in
    count-append 63 prefix (40 ∷ (placeholders 0 ids ++ 41 ∷ []))
    ∙ ap (λ n. count 63 prefix + n) (count-append 63 (placeholders 0 ids) (41 ∷ []) ∙ omega arith)
