-- ===== src/Cli/Flags.antt =====
-- `fs.Parse` of cmd/cli/main.go: what the flag package of the standard library makes of the arguments
-- when the one flag is `email`, a text. Its errors end the process.
use task_tracker.Base.{
  ℕ, Option, none, some, List, [], ◌∷◌, Text, ascii, text_eq, ◌==◌, if◌then◌else◌,
}

-- An argument that ends the flags, one that is malformed, or a flag, perhaps with its value.
pub data Token : Type 0 where
  positional malformed : Token
  flag : (name : Text) → (value : Option Text) → Token

abbrev dash : ℕ
dash = 45

abbrev equals : ℕ
equals = 61

abbrev pub before_equals : Text → Text × Option Text
before_equals [] = ([], none)
before_equals (b ∷ s) =
    let (name, value) = before_equals s in if b == equals then ([], some s) else (b ∷ name, value)

abbrev named : Text → Token
named [] = malformed
named (b ∷ s) =
    let (name, value) = before_equals s in
    if b == dash then malformed else if b == equals then malformed else flag (b ∷ name) value

abbrev after_dashes : Text → Token
after_dashes [] = positional
after_dashes (b ∷ s) = named (b ∷ s)

unfoldable pub token : Text → Token
token [] = positional
token (b ∷ []) = positional
token (b ∷ c ∷ s) =
    if b == dash then if c == dash then after_dashes s else named (c ∷ s) else positional

-- The process ends with an exit code, or the value of the flag is known.
pub data Parse : Type 0 where
  exits : ℕ → Parse
  parsed : (email : Text) → Parse

abbrev not_defined : Text → Parse
not_defined name =
    if text_eq name (ascii "help")
    then exits 0
    else if text_eq name (ascii "h")
    then exits 0
    else exits 2

-- The last argument; a flag without a value needs one.
abbrev parse_last : Text → Token → Parse
parse_last email positional = parsed email
parse_last email malformed = exits 2
parse_last email (flag name (some value)) =
    if text_eq name (ascii "email") then parsed value else not_defined name
parse_last email (flag name none) =
    if text_eq name (ascii "email") then exits 2 else not_defined name

-- `email` is the value so far.
unfoldable pub parse : Text → List Text → Parse
unfolding token
parse email [] = parsed email
parse email (s ∷ []) = parse_last email (token s)
parse email (s ∷ v ∷ args) = elim (token s) [
  | positional ↦ parsed email
  | malformed ↦ exits 2
  | flag name value ↦ elim value [
    | some given ↦
        let later = parse given (v ∷ args) in
        if text_eq name (ascii "email") then later else not_defined name
    | none ↦
        let later = parse v args in if text_eq name (ascii "email") then later else not_defined name
  ]
]
