-- ===== src/Lifecycle/Starter.antt =====
-- The `Starter` of internal/infrastructure/lifecycle/starter.go. A ping is named by a number, and its
-- result is `none` for nil; all pings run at once, and every one is waited for.
use task_tracker.Base.{ℕ, Option, none, some, List, [], ◌∷◌, ◌++◌, Text}

pub record Starter : Type 0 where
  pub pings : List ℕ

-- `AddPing`
abbrev pub add_ping : List ℕ → Starter → Starter
add_ping ps s = record { pings = s.pings ++ ps }

abbrev with_error : Option Text → List Text → List Text
with_error none es = es
with_error (some e) es = e ∷ es

-- `errors.Join` of the results, in the order of the pings.
unfoldable pub join : (ℕ → Option Text) → List ℕ → List Text
join ping [] = []
join ping (p ∷ ps) = with_error (ping p) (join ping ps)

-- `Start`: the errors that it returns; none of them is nil.
abbrev pub start : (ℕ → Option Text) → Starter → List Text
start ping s = join ping s.pings
