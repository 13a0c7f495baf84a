-- ===== src/Outbox/Backoff/Delay.antt =====
-- The delays that `backoff` computes, and where its int64 product leaves them.
use native.Mathlib.Nat.{pow-le-pow_left}
use task_tracker.Base.{ℕ, ◌+◌, ◌-◌, ◌*◌, ◌^◌, ◌≤◌, ◌<◌, min, ◌≡◌, refl, ℤ, pos, negsuc, arith}
use task_tracker.Outbox.{second, backoff_cap}
use task_tracker.Outbox.Backoff.{base_delay, backoff}

base_delay_lem :
    (n p : ℕ) → n ^ 4 ≡ p → p ≤ 309 ^ 4 → base_delay n ≡ pos (min (p * second) backoff_cap)
unfolding base_delay
base_delay_lem n p e h = rw e (ground arith)

base_delay_eq : (n : ℕ) → n ≤ 309 → base_delay n ≡ pos (min (n ^ 4 * second) backoff_cap)
base_delay_eq n h = base_delay_lem n (n ^ 4) refl (pow-le-pow_left h 4)

-- What is asked of the float product: a tenth up or down, give or take the truncation.
pub record IsJitter (jitter : ℤ → ℤ) : Type 0 where
  pub amount : ℕ → ℕ
  pub amount_lem : (d : ℕ) → jitter (pos d) ≡ pos (amount d)
  pub lower : (d : ℕ) → 9 * d ≤ 10 * amount d + 10
  pub upper : (d : ℕ) → 10 * amount d ≤ 11 * d + 10

-- For an attempt from 1 to 309, if the float product with the jitter stays within a tenth of its
-- argument, give or take the truncation, then the delay is above zero and within a tenth of the
-- smaller of one hour and the fourth power of the attempt in seconds.
pub backoff_bounds :
    (jitter : ℤ → ℤ) (j : IsJitter jitter) (n : ℕ)
    → 1 ≤ n
    → n ≤ 309
    → let d = min (n ^ 4 * second) backoff_cap in
      (k : ℕ) × (backoff jitter n ≡ pos k)
      × (0 < k)
      × (9 * d ≤ 10 * k + 10)
      × (10 * k ≤ 11 * d + 10)
unfolding backoff
backoff_bounds jitter j n low high =
    let d = min (n ^ 4 * second) backoff_cap in
    let one : 1 ^ 4 ≤ n ^ 4 = pow-le-pow_left low 4 in
    (
      j.amount d,
      rw (base_delay_eq n high) (j.amount_lem d),
      omega (arith, j.lower d),
      j.lower d,
      j.upper d,
    )

base_delay_wraps :
    (n p : ℕ) → n ^ 4 ≡ p → 310 ^ 4 ≤ p → p ≤ 368 ^ 4 → (k : ℕ) × (base_delay n ≡ negsuc k)
unfolding base_delay
base_delay_wraps n p e low high = (2 ^ 64 - 1 - p * second, rw e (ground arith))

-- For an attempt from 310 to 368 the int64 product of the backoff wraps, and the delay before the
-- jitter is negative.
pub base_delay_overflow : (n : ℕ) → 310 ≤ n → n ≤ 368 → (k : ℕ) × (base_delay n ≡ negsuc k)
base_delay_overflow n low high =
    base_delay_wraps n (n ^ 4) refl (pow-le-pow_left low 4) (pow-le-pow_left high 4)
