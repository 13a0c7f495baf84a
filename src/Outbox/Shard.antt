-- ===== src/Outbox/Shard.antt =====
-- `shardBy` of internal/infrastructure/outbox/relay.go: a claimed batch is cut into one slice for
-- each worker. The loop takes fuel; the caller gives the number of items.
pub mod Partition
use task_tracker.Base.{
  ℕ, zero, suc, ◌+◌, ◌-◌, ◌/◌, min, Bool, List, [], ◌∷◌, length, take, drop, ltb, ◌==◌, ℤ, pos,
  ltb_ℤ, pos_part, if◌then◌else◌,
}

-- `workers` after the two adjustments.
unfoldable pub clamp_workers : ℤ → ℕ → ℕ
clamp_workers workers n =
    let w : ℕ = if ltb_ℤ workers (pos 1) then 1 else pos_part workers in if ltb n w then n else w

unfoldable pub shard_size : ℤ → ℕ → ℕ
unfolding clamp_workers
shard_size workers n = let w = clamp_workers workers n in (n + w - 1) / w

module _ {ℓ} {A : Type ℓ} where
  -- `items[lo:hi]`
  abbrev pub slice : List A → ℕ → ℕ → List A
  slice items lo hi = take (hi - lo) (drop lo items)

  -- The `for` loop, from `start`.
  unfoldable pub shard_loop : ℕ → List A → ℕ → ℕ → List (List A)
  shard_loop zero items size start = []
  shard_loop (suc fuel) items size start =
      let rest = shard_loop fuel items size (start + size) in
      if ltb start (length items)
      then slice items start (min (start + size) (length items)) ∷ rest
      else []

  unfoldable pub shard_by : List A → ℤ → List (List A)
  unfolding shard_loop shard_size
  shard_by items workers =
      if length items == 0
      then []
      else shard_loop (length items) items (shard_size workers (length items)) 0
