-- ===== src/Http/Rules.antt =====
-- The rules of ozzo-validation, a third-party package, that the `Validate` methods of
-- internal/transport/http call: each returns an error's text, or `none` for nil.
use task_tracker.Base.{
  ℕ, ◌≤◌, ◌≡◌, ◌≢◌, ◌⊎◌, Option, none, List, [], Text, length, All, In, ℤ, ◌≤ℤ◌,
}

pub record Rules : Type 0 where
  pub required : Text → Option Text
  pub required_int : ℤ → Option Text
  pub min_int : ℤ → ℤ → Option Text
  pub length_in : ℕ → ℕ → Text → Option Text
  pub one_of : List Text → Text → Option Text
  pub email_format : Text → Option Text
  -- the fields with the results of their rules
  pub validate_struct : List (List (Option Text)) → Option Text

abbrev pub IsNil : Option Text → Type 0
IsNil e = e ≡ none

-- What the package documents: `Required` refuses the zero value, `Length` and `In` let an empty
-- text pass, `Length` counts bytes, and a struct passes when each rule of each field does.
pub record Documented (rules : Rules) : Type 0 where
  pub required_ne : (s : Text) → rules.required s ≡ none → s ≢ []
  pub min_int-le : (lo n : ℤ) → rules.min_int lo n ≡ none → lo ≤ℤ n
  pub length_in-le :
      (lo hi : ℕ) (s : Text)
      → rules.length_in lo hi s ≡ none
      → (s ≡ []) ⊎ ((lo ≤ length s) × (length s ≤ hi))
  pub one_of-In : (ts : List Text) (s : Text) → rules.one_of ts s ≡ none → (s ≡ []) ⊎ In s ts
  pub every_rule :
      (fields : List (List (Option Text)))
      → rules.validate_struct fields ≡ none
      → All (All IsNil) fields
