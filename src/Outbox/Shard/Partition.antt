-- ===== src/Outbox/Shard/Partition.antt =====
-- The shards are the batch, cut: nothing is lost, repeated or reordered, and no more shards are
-- made than there are workers.
use native.Mathlib.Nat.{le_trans}
use task_tracker.Base.{
  ℤ, pos, negsuc, pos_part, ℕ, zero, suc, ◌+◌, ◌-◌, ◌*◌, ◌/◌, ◌≤◌, ◌<◌, min, max, ◌≡◌, refl, sym,
  ap, ◌∙◌, List, [], ◌∷◌, length, drop, flatten, take-append-drop, length-take, length-drop, All,
  ltb, leb, ltb→lt, false, ◌==◌, arith, Bool-cases, inl, inr,
}
use task_tracker.Outbox.Shard.{slice, shard_loop, clamp_workers, shard_size, shard_by}

one_more :
    (c size len start : ℕ)
    → 0 < size
    → start < len
    → c * size ≤ (len - (start + size)) + size - 1
    → suc c * size ≤ (len - start) + size - 1
one_more zero size len start positive h k = omega arith
one_more (suc c) size len start positive h k = omega arith

ceil_covers : (n w : ℕ) → 0 < w → n ≤ w * ((n + w - 1) / w)
ceil_covers n w h = omega arith

ceil_pos : (n w : ℕ) → 0 < w → 0 < n → 0 < (n + w - 1) / w
ceil_pos n w h k = grind (arith, ceil_covers n w h)

-- Pieces of size `q` that only just exceed `n` are no more than the `w` that already cover it.
count_le : (c w q n : ℕ) → n ≤ w * q → c * q ≤ n + q - 1 → 0 < q → c ≤ w
count_le c w q n covers bound positive = grind arith

suc_ne_zero : (n : ℕ) → (suc n == 0) ≡ false
suc_ne_zero n = ground arith

clamp_workers_le :
    (workers : ℤ) (n : ℕ)
    → 0 < n
    → (0 < clamp_workers workers n) × (clamp_workers workers n ≤ max (pos_part workers) 1)
unfolding clamp_workers
clamp_workers_le (pos w) n h = ground arith
clamp_workers_le (negsuc w) n h = ground arith

shard_size_covers :
    (workers : ℤ) (n : ℕ) → 0 < n → n ≤ clamp_workers workers n * shard_size workers n
unfolding shard_size
shard_size_covers workers n h =
    ceil_covers n (clamp_workers workers n) (clamp_workers_le workers n h).0

shard_size_pos : (workers : ℤ) (n : ℕ) → 0 < n → 0 < shard_size workers n
unfolding shard_size
shard_size_pos workers n h = ceil_pos n (clamp_workers workers n) (clamp_workers_le workers n h).0 h

module _ {ℓ} {A : Type ℓ} where
  drop_all : (n : ℕ) (xs : List A) → length xs ≤ n → drop n xs ≡ []
  drop_all zero [] h = refl
  drop_all zero (x ∷ xs) h = absurd (omega arith)
  drop_all (suc n) [] h = refl
  drop_all (suc n) (x ∷ xs) h = drop_all n xs (omega arith)

  drop-nil : (n : ℕ) → drop {A = A} n [] ≡ []
  drop-nil zero = refl
  drop-nil (suc n) = refl

  drop-drop : (m n : ℕ) (xs : List A) → drop m (drop n xs) ≡ drop (n + m) xs
  drop-drop m zero xs = ap (λ k. drop k xs) (omega arith)
  drop-drop m (suc n) [] = drop-nil m ∙ sym (drop-nil (suc n + m))
  drop-drop m (suc n) (x ∷ xs) =
      drop-drop m n xs
      ∙ ap (λ k. drop k (x ∷ xs)) (let e : suc (n + m) ≡ suc n + m = omega arith in e)

  -- Past the end both cuts are empty, so the slice and what follows the next start make the rest.
  drop_next :
      (xs : List A) (start size : ℕ)
      → drop (start + size) xs ≡ drop (min (start + size) (length xs) - start) (drop start xs)
  drop_next xs start size = elim (Bool-cases (leb (start + size) (length xs))) [
    | inl fits ↦ sym (drop-drop _ start xs) ∙ ap (λ k. drop k (drop start xs)) (ground arith)
    | inr over ↦
        drop_all (start + size) xs (ground arith)
        ∙ sym (drop_all _ (drop start xs) (ground (arith, length-drop start xs)))
  ]

  pub flatten-shard_loop :
      (fuel : ℕ) (xs : List A) (size start : ℕ)
      → 0 < size
      → length xs ≤ start + fuel
      → flatten (shard_loop fuel xs size start) ≡ drop start xs
  unfolding shard_loop
  flatten-shard_loop zero xs size start positive h = sym (drop_all start xs (omega arith))
  flatten-shard_loop (suc fuel) xs size start positive h =
      elim (Bool-cases (ltb start (length xs))) [
        | inl more ↦
            rw
              (
                more,
                flatten-shard_loop fuel xs size (start + size) positive (omega arith),
                drop_next xs start size,
              )
              (take-append-drop _ (drop start xs))
        | inr done ↦ rw done (sym (drop_all start xs (ground arith)))
      ]

  slice_bounds :
      (xs : List A) (size start : ℕ)
      → 0 < size
      → start < length xs
      → let s = slice xs start (min (start + size) (length xs)) in
        (1 ≤ length s) × (length s ≤ size)
  slice_bounds xs size start positive h =
      let cut = length-take (min (start + size) (length xs) - start) (drop start xs) in
      let rest = length-drop start xs in (omega (arith, cut, rest), omega (arith, cut, rest))

  -- Every shard has at least one item, and no more than the size computed.
  pub shard_loop-lengths :
      (fuel : ℕ) (xs : List A) (size start : ℕ)
      → 0 < size
      → All (λ s. (1 ≤ length s) × (length s ≤ size)) (shard_loop fuel xs size start)
  unfolding shard_loop
  shard_loop-lengths zero xs size start positive = tt
  shard_loop-lengths (suc fuel) xs size start positive = elim (Bool-cases (ltb start (length xs))) [
    | inl more ↦ rw more (
      slice_bounds xs size start positive (ltb→lt _ _ more),
      shard_loop-lengths fuel xs size (start + size) positive,
    )
    | inr done ↦ rw done tt
  ]

  pub length-shard_loop :
      (fuel : ℕ) (xs : List A) (size start : ℕ)
      → 0 < size
      → length (shard_loop fuel xs size start) * size ≤ (length xs - start) + size - 1
  unfolding shard_loop
  length-shard_loop zero xs size start positive = omega arith
  length-shard_loop (suc fuel) xs size start positive = elim (Bool-cases (ltb start (length xs))) [
    | inl more ↦ rw more (
        one_more _ size (length xs) start positive (ltb→lt _ _ more)
          (length-shard_loop fuel xs size (start + size) positive))
    | inr done ↦ rw done (omega arith)
  ]

  -- The shards of a batch, joined in order, are the batch; there are at most as many as workers, or
  -- one if there are fewer workers than one; and each holds at least one item and at most the size
  -- of a shard.
  pub shard_by-partition :
      (items : List A) (workers : ℤ)
      → (flatten (shard_by items workers) ≡ items)
        × (length (shard_by items workers) ≤ max (pos_part workers) 1)
        × All
            (λ s. (1 ≤ length s) × (length s ≤ shard_size workers (length items)))
            (shard_by items workers)
  unfolding shard_by
  shard_by-partition [] workers = (refl, omega arith, tt)
  shard_by-partition (x ∷ xs) workers =
      let items = x ∷ xs in
      let n = length items in
      let some_size = shard_size_pos workers n (omega arith) in
      let w = clamp_workers_le workers n (omega arith) in
      rw (suc_ne_zero (length xs)) (
        flatten-shard_loop n items (shard_size workers n) 0 some_size (omega arith),
        le_trans
            (count_le _ (clamp_workers workers n) (shard_size workers n) n
              (shard_size_covers workers n (omega arith))
              (omega (arith, length-shard_loop n items _ 0 some_size)) some_size)
            w.1,
        shard_loop-lengths n items (shard_size workers n) 0 some_size,
      )

  pub shard_by-nil : (workers : ℤ) → shard_by {A = A} [] workers ≡ []
  unfolding shard_by
  shard_by-nil workers = refl
