-- ===== src/Jobs/Backoff.antt =====
-- The delay before a retry.
use native.Mathlib.Nat.{pow-suc}
use panoptic.Common.{ℕ, zero, suc, ◌*◌, ◌^◌, ◌≤◌, ◌≡◌, refl, min, arith}
use panoptic.Jobs.Lease.{compute_retry_delay}

power_pos : (n : ℕ) → 1 ≤ 2 ^ n
power_pos zero = omega arith
power_pos (suc n) = omega (arith, pow-suc 2 n, power_pos n)

-- The first retry waits 30 seconds and each later one twice as long as the one before, up to the
-- cap of 600 seconds; from the first attempt on, every delay lies between 30 and 600 seconds.
pub compute_retry_delay_lem :
    (n : ℕ)
    → (compute_retry_delay 1 ≡ 30)
      × (compute_retry_delay (suc (suc n)) ≡ min (2 * compute_retry_delay (suc n)) 600)
      × (30 ≤ compute_retry_delay (suc n))
      × (compute_retry_delay (suc n) ≤ 600)
unfolding compute_retry_delay
compute_retry_delay_lem n =
    (refl, omega (arith, pow-suc 2 n), omega (arith, power_pos n), omega arith)
