-- ===== src/Outbox/Dedup.antt =====
-- internal/infrastructure/cache/dedup.go: the store of what the relay has sent. A command is answered,
-- or fails; the expiry of a key is not modelled.
use task_tracker.Base.{
  ℕ, ◌+◌, ◌≡◌, ap, sym, ◌∙◌, Bool, true, false, Text, ascii, decimal, decimal-injective, text_eq,
  [], ◌∷◌, text_eq_sound, text_eq_refl, ◌++◌, if◌then◌else◌, ◌==◌, ==_iff, Bool-cases, inl, inr,
  arith,
}

-- How redis takes a command.
pub data Taken : Type 0 where
  answered cancelled unavailable : Taken

-- The keys that are set, and the counter `dedupUnavailable`.
pub record Store : Type 0 where
  pub keys : Text → Bool
  pub unavailable_total : ℕ

abbrev pub sent_key : ℕ → Text
sent_key id = ascii "outbox:sent:" ++ decimal id

-- `WasSent`: a store that does not answer has sent nothing.
unfoldable pub was_sent : Taken → ℕ → Store → Bool × Store
was_sent answered id s = (s.keys (sent_key id), s)
was_sent cancelled id s = (false, s)
was_sent unavailable id s = (false, record s { unavailable_total = s.unavailable_total + 1 })

-- `MarkSent`
unfoldable pub mark_sent : Taken → ℕ → Store → Store
mark_sent answered id s = record s {
  keys = λ k. if text_eq k (sent_key id) then true else s.keys k;
}
mark_sent cancelled id s = s
mark_sent unavailable id s = record s { unavailable_total = s.unavailable_total + 1 }

same_prefix : (p s t : Text) → p ++ s ≡ p ++ t → s ≡ t
same_prefix [] s t e = e
same_prefix (b ∷ p) s t e = same_prefix p s t (cc e)

sent_key_eq : (a b : ℕ) → text_eq (sent_key a) (sent_key b) ≡ (a == b)
sent_key_eq a b = elim (Bool-cases (a == b)) [
  | inl same ↦
      let equal : a ≡ b = (==_iff a b).0 same in
      ap (λ n. text_eq (sent_key a) (sent_key n)) (sym equal) ∙ text_eq_refl (sent_key a) ∙ sym same
  | inr other ↦ elim (Bool-cases (text_eq (sent_key a) (sent_key b))) [
    | inr differ ↦ differ ∙ sym other
    | inl same ↦
        let equal : a ≡ b = decimal-injective a b (
          same_prefix (ascii "outbox:sent:") (decimal a) (decimal b)
            (text_eq_sound (sent_key a) (sent_key b) same)) in
        absurd (ground arith)
  ]
]

-- A mark that was taken is found, and changes no other answer.
pub mark_sent-was_sent :
    (a b : ℕ) (s : Store)
    → (was_sent answered b (mark_sent answered a s)).0
      ≡ (if b == a then true else (was_sent answered b s).0)
unfolding was_sent mark_sent
mark_sent-was_sent a b s = ap (λ t. if t then true else s.keys (sent_key b)) (sent_key_eq b a)
