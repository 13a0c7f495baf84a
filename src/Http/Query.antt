-- ===== src/Http/Query.antt =====
-- The query parameters that the list handlers share: `limit`, `cursor` and the required identifiers.
use task_tracker.Base.{
  ◌⊎◌, ℕ, ◌<◌, ◌≤◌, ◌^◌, ◌≡◌, refl, ◌||◌, Option, none, some, [], ◌∷◌, Text, ascii, decimal,
  decimal-ne-nil, parse_int, parse_int-decimal, ℤ, pos, List, length, ◌==◌, pos_part, ltb_ℤ,
  if◌then◌else◌, arith, inl, inr,
}
use task_tracker.Tx.{Action, pure, raise}
use task_tracker.Store.{World}
use task_tracker.Http.Kit.{Reply, error}

-- A value, or the text of the error.
pub data Parsed (A : Type 0) : Type 0 where
  parsed : A → Parsed A
  refused : Text → Parsed A

infixl 5 ◌>>=◌
abbrev pub ◌>>=◌ : {A B : Type 0} → Parsed A → (A → Parsed B) → Parsed B
parsed a >>= f = f a
refused e >>= f = refused e

-- `if err != nil || n < 1` after `ParseInt`
abbrev pub at_least_one : Text → Option ℤ → Parsed ℕ
at_least_one message none = refused message
at_least_one message (some n) = if ltb_ℤ n (pos 1) then refused message else parsed (pos_part n)

unfoldable pub positive : Text → Text → Parsed ℕ
positive message s = at_least_one message (parse_int s)

abbrev pub default_limit : ℕ
default_limit = 20

abbrev pub max_limit : ℕ
max_limit = 100

abbrev limit_in_range : Option ℤ → Parsed ℕ
limit_in_range none = refused (ascii "limit must be 1..100")
limit_in_range (some n) =
    if ltb_ℤ n (pos 1) || ltb_ℤ (pos max_limit) n
    then refused (ascii "limit must be 1..100")
    else parsed (pos_part n)

unfoldable pub parse_limit : Text → Parsed ℕ
parse_limit [] = parsed default_limit
parse_limit (b ∷ s) = limit_in_range (parse_int (b ∷ s))

unfoldable pub parse_cursor : Text → Parsed ℕ
unfolding positive
parse_cursor [] = parsed 0
parse_cursor (b ∷ s) = positive (ascii "invalid cursor") (b ∷ s)

pub Parsed-cases :
    {A : Type 0} (p : Parsed A) → ((e : Text) × (p ≡ refused e)) ⊎ ((a : A) × (p ≡ parsed a))
Parsed-cases (refused e) = inl (e, refl)
Parsed-cases (parsed a) = inr (a, refl)

-- Inversion of a chain that returned a value.
pub >>=-eq-parsed :
    {A B : Type 0} (m : Parsed A) (f : A → Parsed B) (b : B)
    → (m >>= f) ≡ parsed b
    → (a : A) × (m ≡ parsed a) × (f a ≡ parsed b)
>>=-eq-parsed (parsed a) f b h = (a, refl, h)
>>=-eq-parsed (refused e) f b h = cc

pub positive_lem : (message s : Text) (n : ℕ) → positive message s ≡ parsed n → 1 ≤ n
unfolding positive
positive_lem message s n h = ground arith

pub parse_limit_bounds : (s : Text) (n : ℕ) → parse_limit s ≡ parsed n → (1 ≤ n) × (n ≤ max_limit)
unfolding parse_limit
parse_limit_bounds [] n h = ground arith
parse_limit_bounds (b ∷ s) n h = ground arith

-- The cursor that an answer names is read back as it was.
pub parse_cursor-decimal : (n : ℕ) → 1 ≤ n → n < 2 ^ 63 → parse_cursor (decimal n) ≡ parsed n
unfolding parse_cursor positive
parse_cursor-decimal n one small = read (decimal n) (decimal-ne-nil n) (parse_int-decimal n small)
  where
    read : (s : Text) → (s ≡ [] → ⊥) → parse_int s ≡ some (pos n) → parse_cursor s ≡ parsed n
    read [] some_digit h = absurd (some_digit refl)
    read (b ∷ s) some_digit h = rw h (ground arith)

-- The cursor of the next page: the last identifier of a page that is full.
abbrev pub last_of : ℕ → List ℕ → ℕ
last_of d [] = d
last_of d (id ∷ ids) = last_of id ids

abbrev pub next_cursor : ℕ → List ℕ → Option ℕ
next_cursor limit ids = if length ids == limit then some (last_of 0 ids) else none

-- An error is answered with 400 and its text.
abbrev pub parsed_or_400 : {A B : Type 0} → Parsed A → Action World (Reply B) A
parsed_or_400 (parsed f) = pure f
parsed_or_400 (refused message) = raise (error 400 message)
