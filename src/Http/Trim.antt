-- ===== src/Http/Trim.antt =====
-- `strings.CutPrefix` and `strings.TrimSpace` of the standard library, on valid UTF-8.
use task_tracker.Base.{
  ℕ, zero, suc, Option, none, some, List, [], ◌∷◌, Text, map, length, ◌==◌, if◌then◌else◌,
}
use mathlib.Core.List.{reverse}
pub mod Trimmed

-- `strings.CutPrefix(s, prefix)`; `none` is `false`.
unfoldable pub cut_prefix : Text → Text → Option Text
cut_prefix [] s = some s
cut_prefix (p ∷ ps) [] = none
cut_prefix (p ∷ ps) (b ∷ s) = if p == b then cut_prefix ps s else none

-- The UTF-8 of each character that `unicode.IsSpace` accepts.
abbrev pub spaces : List Text
spaces =
    (9 ∷ [])
    ∷ (10 ∷ [])
    ∷ (11 ∷ [])
    ∷ (12 ∷ [])
    ∷ (13 ∷ [])
    ∷ (32 ∷ [])
    ∷ (194 ∷ 133 ∷ [])
    ∷ (194 ∷ 160 ∷ [])
    ∷ (225 ∷ 154 ∷ 128 ∷ [])
    ∷ (226 ∷ 128 ∷ 128 ∷ [])
    ∷ (226 ∷ 128 ∷ 129 ∷ [])
    ∷ (226 ∷ 128 ∷ 130 ∷ [])
    ∷ (226 ∷ 128 ∷ 131 ∷ [])
    ∷ (226 ∷ 128 ∷ 132 ∷ [])
    ∷ (226 ∷ 128 ∷ 133 ∷ [])
    ∷ (226 ∷ 128 ∷ 134 ∷ [])
    ∷ (226 ∷ 128 ∷ 135 ∷ [])
    ∷ (226 ∷ 128 ∷ 136 ∷ [])
    ∷ (226 ∷ 128 ∷ 137 ∷ [])
    ∷ (226 ∷ 128 ∷ 138 ∷ [])
    ∷ (226 ∷ 128 ∷ 168 ∷ [])
    ∷ (226 ∷ 128 ∷ 169 ∷ [])
    ∷ (226 ∷ 128 ∷ 175 ∷ [])
    ∷ (226 ∷ 129 ∷ 159 ∷ [])
    ∷ (227 ∷ 128 ∷ 128 ∷ [])
    ∷ []

abbrev or_else : Option Text → Option Text → Option Text
or_else none other = other
or_else (some rest) other = some rest

-- What follows the first of the texts that `s` begins with.
unfoldable pub cut_any : List Text → Text → Option Text
unfolding cut_prefix
cut_any [] s = none
cut_any (p ∷ ps) s = or_else (cut_prefix p s) (cut_any ps s)

abbrev next_round : (Text → Text) → Text → Option Text → Text
next_round again s none = s
next_round again s (some rest) = again rest

-- One cut for each round of fuel; a text has at most as many characters as bytes.
unfoldable pub trim_left : ℕ → List Text → Text → Text
trim_left zero ps s = s
trim_left (suc fuel) ps s = next_round (trim_left fuel ps) s (cut_any ps s)

-- The end is trimmed as the start of the text read backwards.
unfoldable pub trim_space : Text → Text
unfolding trim_left cut_any
trim_space s =
    let front = trim_left (length s) spaces s in
    reverse (trim_left (length front) (map reverse spaces) (reverse front))
