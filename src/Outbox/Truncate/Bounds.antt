-- ===== src/Outbox/Truncate/Bounds.antt =====
-- What `truncateUTF8` of internal/infrastructure/persistence/outbox.go gives to the column `last_error`.
use task_tracker.Base.{
  ℕ, zero, suc, ◌≤◌, ◌≡◌, refl, ap, subst, ◌∙◌, true, [], ◌∷◌, Option, none, some, Text, length,
  take, length-take, leb, leb→le, Bool-cases, Option-cases, inl, inr, arith, if◌then◌else◌,
}
use task_tracker.Outbox.Truncate.{
  first_byte, continued, follows, reading, rune_rest, copy_valid, to_valid_utf8, back_up,
  truncate_utf8,
}

copy_valid-bad :
    (b : ℕ) (s : Text) → rune_rest b s ≡ none → copy_valid zero (b ∷ s) ≡ copy_valid zero s
unfolding copy_valid
copy_valid-bad b s bad =
    ap
      (λ (o : Option ℕ). elim o as (λ _. Text) [
        | none ↦ copy_valid zero s
        | some n ↦ b ∷ copy_valid n s
      ])
      bad

copy_valid-rune :
    (b n : ℕ) (s : Text) → rune_rest b s ≡ some n → copy_valid zero (b ∷ s) ≡ b ∷ copy_valid n s
unfolding copy_valid
copy_valid-rune b n s good =
    ap
      (λ (o : Option ℕ). elim o as (λ _. Text) [
        | none ↦ copy_valid zero s
        | some n ↦ b ∷ copy_valid n s
      ])
      good

copy_valid-length : (k : ℕ) (s : Text) → length (copy_valid k s) ≤ length s
unfolding copy_valid
copy_valid-length k [] = omega arith
copy_valid-length (suc n) (b ∷ s) = let rest = copy_valid-length n s in omega arith
copy_valid-length zero (b ∷ s) =
    let dropped = copy_valid-length zero s in
    elim (Option-cases (rune_rest b s)) [
      | inl bad ↦ rw (copy_valid-bad b s bad) (omega arith)
      | inr (n, good) ↦
          let rest = copy_valid-length n s in rw (copy_valid-rune b n s good) (omega arith)
    ]

continued-copy_valid : (n : ℕ) (s : Text) → continued n (copy_valid n s) ≡ continued n s
unfolding copy_valid continued
continued-copy_valid zero s = refl
continued-copy_valid (suc n) [] = refl
continued-copy_valid (suc n) (b ∷ s) = simp (continued-copy_valid n s)

follows-copy_valid : (lo hi n : ℕ) (s : Text) → follows lo hi n (copy_valid n s) ≡ follows lo hi n s
unfolding copy_valid follows
follows-copy_valid lo hi zero s = refl
follows-copy_valid lo hi (suc n) [] = refl
follows-copy_valid lo hi (suc n) (b ∷ s) = simp (continued-copy_valid n s)

reading-copy_valid :
    (o : Option (ℕ × ℕ × ℕ)) (n : ℕ) (s : Text)
    → reading o s ≡ some n
    → reading o (copy_valid n s) ≡ some n
unfolding reading
reading-copy_valid none n s h = cc
reading-copy_valid (some (lo, hi, m)) n s h = elim (Bool-cases (follows lo hi m s)) [
  | inl good ↦
      let e : some m ≡ some n = rw good at h in
      let same : m ≡ n = cc in
      let again : follows lo hi m (copy_valid m s) ≡ true = follows-copy_valid lo hi m s ∙ good in
      subst (λ k. (if follows lo hi m (copy_valid k s) then some m else none) ≡ some k) same
        (simp again)
  | inr bad ↦ let e : none ≡ some n = rw bad at h in cc
]

-- The bytes that stand after a rune's first are copied, so it is read as the same rune again.
rune_rest-copy_valid :
    (b n : ℕ) (s : Text) → rune_rest b s ≡ some n → rune_rest b (copy_valid n s) ≡ some n
unfolding rune_rest
rune_rest-copy_valid b n s h = reading-copy_valid (first_byte b) n s h

copy_valid-idempotent : (k : ℕ) (s : Text) → copy_valid k (copy_valid k s) ≡ copy_valid k s
unfolding copy_valid
copy_valid-idempotent k [] = refl
copy_valid-idempotent (suc n) (b ∷ s) = ap (λ t. b ∷ t) (copy_valid-idempotent n s)
copy_valid-idempotent zero (b ∷ s) = elim (Option-cases (rune_rest b s)) [
  | inl bad ↦ rw (copy_valid-bad b s bad) (copy_valid-idempotent zero s)
  | inr (n, good) ↦
      let again = copy_valid-rune b n (copy_valid n s) (rune_rest-copy_valid b n s good) in
      rw (copy_valid-rune b n s good) (again ∙ ap (λ t. b ∷ t) (copy_valid-idempotent n s))
]

back_up-le : (s : Text) (n : ℕ) → back_up s n ≤ n
unfolding back_up
back_up-le s zero = omega arith
back_up-le s (suc n) = let rest = back_up-le s n in ground arith

-- The text that is stored for an error is at most as long as the given number of bytes, and
-- dropping invalid bytes from it changes nothing.
pub truncate_utf8-fits :
    (s : Text) (max_bytes : ℕ)
    → (length (truncate_utf8 s max_bytes) ≤ max_bytes)
      × (to_valid_utf8 (truncate_utf8 s max_bytes) ≡ truncate_utf8 s max_bytes)
unfolding truncate_utf8 to_valid_utf8
truncate_utf8-fits s max_bytes =
    let cut = take (back_up s max_bytes) s in
    let whole_length = copy_valid-length zero s in
    let cut_length = copy_valid-length zero cut in
    let start = back_up-le s max_bytes in
    let taken = length-take (back_up s max_bytes) s in
    elim (Bool-cases (leb (length s) max_bytes)) [
      | inl short ↦
          let fits = leb→le (length s) max_bytes short in
          rw short (omega arith, copy_valid-idempotent zero s)
      | inr long ↦ rw long (omega arith, copy_valid-idempotent zero cut)
    ]
