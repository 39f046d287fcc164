-- ===== src/Retry/Backoff.antt =====
-- The backoff delays of crates/chudbot-api/src/retry.rs.
use native.Mathlib.Nat.{le_trans, pow-le-pow_right}
use chudbot.Common.{ℕ, suc, ◌-◌, ◌*◌, ◌^◌, ◌≤◌, ◌<◌, min, ◌≡◌, arith}
use chudbot.Retry.{RetryPolicy, u32_max, duration_max, saturating_pow2, saturating_mul, backoff}

pow2_mono : (m n : ℕ) → m ≤ n → 2 ^ m ≤ 2 ^ n
pow2_mono m n h = pow-le-pow_right (omega arith) h

pow2_below : (n : ℕ) → n < 32 → 2 ^ n ≤ u32_max
pow2_below n h = le_trans (pow2_mono n 31 (omega arith)) (omega arith)

mul_mono : (d a b : ℕ) → a ≤ b → d * a ≤ d * b
mul_mono d a b h = grind arith

-- A later retry never waits less, and no wait is longer than the policy's cap.
pub backoff_mono :
    (policy : RetryPolicy) (m n : ℕ)
    → m ≤ n
    → (backoff policy m ≤ backoff policy n) × (backoff policy n ≤ policy.max_delay)
unfolding backoff saturating_pow2 saturating_mul
backoff_mono policy m n h =
    let e = pow2_mono (m - 1) (n - 1) (omega arith) in
    let f =
      mul_mono policy.base_delay (min (2 ^ (m - 1)) u32_max) (min (2 ^ (n - 1)) u32_max)
        (omega arith) in
    (omega arith, omega arith)

-- For the first 32 retries, with the cap a possible `Duration`, the wait is the base delay doubled
-- once for each earlier retry, or the cap if that is less: saturation changes nothing.
pub backoff_doubles :
    (policy : RetryPolicy) (n : ℕ)
    → n < 32
    → policy.max_delay ≤ duration_max
    → backoff policy (suc n) ≡ min (policy.base_delay * 2 ^ n) policy.max_delay
unfolding backoff saturating_pow2 saturating_mul
backoff_doubles policy n h fits =
    let s : suc n - 1 ≡ n = omega arith in
    rw s (
      let e = pow2_below n h in
      let f : min (2 ^ n) u32_max ≡ 2 ^ n = omega arith in rw f (omega arith))
