-- ===== src/Outbox/Truncate.antt =====
-- `truncateUTF8` of internal/infrastructure/persistence/outbox.go, with what it takes from the Go
-- library: `utf8.RuneStart` and `strings.ToValidUTF8` with an empty replacement.
pub mod Bounds
use task_tracker.Base.{
  ℕ, zero, suc, ◌+◌, ◌-◌, ◌%◌, ◌/◌, Bool, true, false, not, ◌&&◌, List, [], ◌∷◌, Option, none, some,
  Text, length, take, ltb, leb, ◌==◌, if◌then◌else◌,
}

abbrev pub max_err_len : ℕ
max_err_len = 1024

-- The byte is not a continuation byte, `10xxxxxx`.
unfoldable pub rune_start : ℕ → Bool
rune_start b = not (b / 64 == 2)

abbrev between : ℕ → ℕ → ℕ → Bool
between lo hi b = leb lo b && leb b hi

-- The least and the greatest second byte that may follow a first byte, and how many bytes follow it.
unfoldable pub first_byte : ℕ → Option (ℕ × ℕ × ℕ)
first_byte b =
    if ltb b 0x80
    then some (0, 0, 0)
    else if between 0xc2 0xdf b
    then some (0x80, 0xbf, 1)
    else if b == 0xe0
    then some (0xa0, 0xbf, 2)
    else if b == 0xed
    then some (0x80, 0x9f, 2)
    else if between 0xe1 0xef b
    then some (0x80, 0xbf, 2)
    else if b == 0xf0
    then some (0x90, 0xbf, 3)
    else if between 0xf1 0xf3 b
    then some (0x80, 0xbf, 3)
    else if b == 0xf4
    then some (0x80, 0x8f, 3)
    else none

-- The next `n` bytes are there and are continuation bytes.
unfoldable pub continued : ℕ → Text → Bool
continued zero s = true
continued (suc n) [] = false
continued (suc n) (b ∷ s) = between 0x80 0xbf b && continued n s

unfoldable pub follows : ℕ → ℕ → ℕ → Text → Bool
follows lo hi zero s = true
follows lo hi (suc n) [] = false
follows lo hi (suc n) (b ∷ s) = between lo hi b && continued n s

-- How many bytes follow, if they do.
unfoldable pub reading : Option (ℕ × ℕ × ℕ) → Text → Option ℕ
reading none s = none
reading (some (lo, hi, n)) s = if follows lo hi n s then some n else none

-- How many bytes of the rune that starts with `b` stand in `s`, or none where no valid rune starts.
unfoldable pub rune_rest : ℕ → Text → Option ℕ
rune_rest b s = reading (first_byte b) s

-- `open` bytes of a rune are still to be copied; the bytes of no rune are dropped.
unfoldable pub copy_valid : ℕ → Text → Text
copy_valid open_bytes [] = []
copy_valid (suc n) (b ∷ s) = b ∷ copy_valid n s
copy_valid zero (b ∷ s) = elim (rune_rest b s) [
  | none ↦ copy_valid zero s
  | some n ↦ b ∷ copy_valid n s
]

unfoldable pub to_valid_utf8 : Text → Text
to_valid_utf8 s = copy_valid zero s

abbrev pub byte_at : Text → ℕ → ℕ
byte_at [] i = 0
byte_at (b ∷ s) zero = b
byte_at (b ∷ s) (suc i) = byte_at s i

-- The `for` loop: back to where a rune starts.
unfoldable pub back_up : Text → ℕ → ℕ
back_up s zero = zero
back_up s (suc n) = let rest = back_up s n in if rune_start (byte_at s (suc n)) then suc n else rest

unfoldable pub truncate_utf8 : Text → ℕ → Text
truncate_utf8 s max_bytes =
    if leb (length s) max_bytes
    then to_valid_utf8 s
    else to_valid_utf8 (take (back_up s max_bytes) s)
