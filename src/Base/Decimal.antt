-- ===== src/Base/Decimal.antt =====
-- `strconv.FormatInt(n, 10)` for a number that is not negative, and `strconv.ParseInt(s, 10, 64)`,
-- which `strconv.Atoi` is on a 64-bit machine.
use Prim.Native.Nat.{ℕ, zero, suc, ◌+◌, ◌*◌, ◌-◌, ◌/◌, ◌%◌, ◌^◌, ◌<◌}
use mathlib.Core.Path.{◌≡◌, refl, sym, ap, ◌∙◌}
use mathlib.Core.Bool.{Bool, ◌&&◌}
use mathlib.Core.Option.{Option, none, some}
use mathlib.Core.Logic.{◌≢◌, inl, inr}
use mathlib.Core.List.{[], ◌∷◌}
use native.Mathlib.Omega.{arith}
use task_tracker.Base.Tests.{ltb, leb, ◌==◌, if◌then◌else◌, Bool-cases}
use task_tracker.Base.Bytes.{Text}
use task_tracker.Base.Int.{ℤ, pos, negsuc}

-- The digits of `n`, before those that follow; the fuel is above the number of digits.
digits_from : ℕ → ℕ → Text → Text
digits_from zero n rest = rest
digits_from (suc fuel) n rest =
    let more = digits_from fuel (n / 10) ((48 + n % 10) ∷ rest) in
    if ltb n 10 then (48 + n) ∷ rest else more

unfoldable pub decimal : ℕ → Text
unfolding digits_from
decimal n = digits_from (suc n) n []

value_from : ℕ → Text → ℕ
value_from acc [] = acc
value_from acc (b ∷ s) = value_from (acc * 10 + (b - 48)) s

-- The number read back, with the digits that follow.
value-digits_from :
    (fuel n : ℕ) (rest : Text)
    → n < fuel
    → value_from 0 (digits_from fuel n rest) ≡ value_from n rest
unfolding digits_from value_from
value-digits_from zero n rest h = elim h [ ]
value-digits_from (suc fuel) n rest h = elim (Bool-cases (ltb n 10)) [
  | inl small ↦ rw small (ap (λ k. value_from k rest) (omega arith))
  | inr big ↦ rw big (
      value-digits_from fuel (n / 10) ((48 + n % 10) ∷ rest) (ground arith)
      ∙ ap (λ k. value_from k rest) (omega arith))
]

-- Different numbers have different texts.
pub decimal-injective : (m n : ℕ) → decimal m ≡ decimal n → m ≡ n
unfolding decimal value_from
decimal-injective m n e =
    sym (value-digits_from (suc m) m [] (omega arith))
    ∙ ap (value_from 0) e
    ∙ value-digits_from (suc n) n [] (omega arith)

digits_from-ne-nil : (fuel n : ℕ) (rest : Text) → n < fuel → digits_from fuel n rest ≢ []
unfolding digits_from
digits_from-ne-nil zero n rest h = elim h [ ]
digits_from-ne-nil (suc fuel) n rest h = elim (Bool-cases (ltb n 10)) [
  | inl small ↦ rw small (λ e. cc)
  | inr big ↦ rw big (digits_from-ne-nil fuel (n / 10) ((48 + n % 10) ∷ rest) (ground arith))
]

pub decimal-ne-nil : (n : ℕ) → decimal n ≢ []
unfolding decimal
decimal-ne-nil n = digits_from-ne-nil (suc n) n [] (omega arith)

is_digit : ℕ → Bool
is_digit b = leb 48 b && leb b 57

-- The number that digits alone spell, after those that gave `acc`.
digits_value : ℕ → Text → Option ℕ
digits_value acc [] = some acc
digits_value acc (b ∷ s) = if is_digit b then digits_value (acc * 10 + (b - 48)) s else none

-- `ParseUint`: at least one digit, and nothing else.
unsigned : Text → Option ℕ
unsigned [] = none
unsigned (b ∷ s) = digits_value 0 (b ∷ s)

abbrev non_negative : ℕ → Option ℤ
non_negative n = if ltb n (2 ^ 63) then some (pos n) else none

-- `-n`, where `n` is at most 2^63
abbrev negated : ℕ → Option ℤ
negated n = if n == 0 then some (pos 0) else if leb n (2 ^ 63) then some (negsuc (n - 1)) else none

abbrev in_range : (ℕ → Option ℤ) → Option ℕ → Option ℤ
in_range sign none = none
in_range sign (some n) = sign n

-- `strconv.ParseInt(s, 10, 64)`; `none` is an error.
unfoldable pub parse_int : Text → Option ℤ
unfolding unsigned digits_value is_digit
parse_int [] = none
parse_int (b ∷ s) =
    if b == b'-'
    then in_range negated (unsigned s)
    else if b == b'+'
    then in_range non_negative (unsigned s)
    else in_range non_negative (unsigned (b ∷ s))

digits_value-digits_from :
    (fuel n : ℕ) (rest : Text)
    → n < fuel
    → digits_value 0 (digits_from fuel n rest) ≡ digits_value n rest
unfolding digits_from digits_value is_digit
digits_value-digits_from zero n rest h = elim h [ ]
digits_value-digits_from (suc fuel) n rest h = elim (Bool-cases (ltb n 10)) [
  | inl small ↦ rw small (ground arith)
  | inr big ↦
      rw big
        (digits_value-digits_from fuel (n / 10) ((48 + n % 10) ∷ rest) (ground arith) ∙ last_digit)
]
  where
    same : n / 10 * 10 + (48 + n % 10 - 48) ≡ n
    same = omega arith

    last_digit : digits_value (n / 10) ((48 + n % 10) ∷ rest) ≡ digits_value n rest
    last_digit = ground (arith, ap (λ k. digits_value k rest) same)

-- A text of digits has no sign.
parse_int-unsigned :
    (s : Text) (n : ℕ) → unsigned s ≡ some n → n < 2 ^ 63 → parse_int s ≡ some (pos n)
unfolding parse_int unsigned digits_value is_digit
parse_int-unsigned [] n h small = cc
parse_int-unsigned (b ∷ s) n h small = ground arith

-- `strconv` reads back what it has written.
pub parse_int-decimal : (n : ℕ) → n < 2 ^ 63 → parse_int (decimal n) ≡ some (pos n)
unfolding decimal unsigned digits_value
parse_int-decimal n small =
    parse_int-unsigned (decimal n) n (spelled (decimal n) (decimal-ne-nil n) value) small
  where
    value : digits_value 0 (decimal n) ≡ some n
    value = digits_value-digits_from (suc n) n [] (omega arith)

    spelled : (s : Text) → s ≢ [] → digits_value 0 s ≡ some n → unsigned s ≡ some n
    spelled [] some_digit h = absurd (some_digit refl)
    spelled (b ∷ s) some_digit h = h

digits_read : parse_int (b'-' ∷ b'4' ∷ b'2' ∷ []) ≡ some (negsuc 41)
unfolding parse_int
digits_read = refl
