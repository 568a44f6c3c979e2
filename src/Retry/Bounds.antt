-- ===== src/Retry/Bounds.antt =====
-- worker/src/retry.ts: bounds and growth of the delay.
use native.Mathlib.Nat.{
  div-mul-le_self, le_of_lt, le_of_mul-le-mul_left, two-pow-succ, one-le-pow, mul-le-mul_left,
  mul-le-mul_right,
}
use chronos_job_scheduler.Prelude.{ℕ, suc, ◌+◌, ◌*◌, ◌^◌, ◌≤◌, ◌<◌, ◌≡◌, ap, min, arith}
use chronos_job_scheduler.Schema.{RetryStrategy, fixed, linear, exponential}
use chronos_job_scheduler.Retry.{Random, jitter, calculate_delay}

-- `Math.random()` is below 1.
abbrev pub IsFraction : Random → Type 0
IsFraction r = r.numerator < r.denominator

-- The jitter is at most a tenth of the base delay.
pub jitter_le : (r : Random) (base : ℕ) → IsFraction r → jitter r base * 10 ≤ base
unfolding jitter
jitter_le r base h =
    le_of_mul-le-mul_left {k = r.denominator}
      (omega (
        arith,
        div-mul-le_self (r.numerator * base) (r.denominator * 10),
        mul-le-mul_right base (le_of_lt h),
      ))
      (omega arith)

-- From each attempt to the next the exponential term doubles, and it is never below the base.
power_step :
    (base attempt : ℕ)
    → (base * 2 ^ suc attempt ≡ base * 2 ^ attempt + base * 2 ^ attempt)
      × (base ≤ base * 2 ^ attempt)
power_step base attempt = (
  omega (arith, ap (λ (t : ℕ). base * t) (two-pow-succ attempt)),
  omega (arith, mul-le-mul_left base (one-le-pow attempt 2 (omega arith))),
)

-- From the first attempt on, no delay exceeds the policy's ceiling, and none is less than the
-- smaller of the base delay and the ceiling.
pub calculate_delay_range :
    (s : RetryStrategy) (base max_delay attempt : ℕ) (r : Random)
    → 1 ≤ attempt
    → (min base max_delay ≤ calculate_delay s base max_delay attempt r)
      × (calculate_delay s base max_delay attempt r ≤ max_delay)
unfolding calculate_delay
calculate_delay_range fixed base max_delay attempt r h = omega arith
calculate_delay_range linear base max_delay attempt r h = omega (arith, mul-le-mul_left base h)
calculate_delay_range exponential base max_delay attempt r h =
    omega (arith, (power_step base attempt).1)

-- A next attempt never waits less, whatever jitter the two attempts draw, the first one below 1.
pub calculate_delay_mono :
    (s : RetryStrategy) (base max_delay attempt : ℕ) (q r : Random)
    → IsFraction q
    → calculate_delay s base max_delay attempt q ≤ calculate_delay s base max_delay (suc attempt) r
unfolding calculate_delay
calculate_delay_mono fixed base max_delay attempt q r h = omega arith
calculate_delay_mono linear base max_delay attempt q r h = grind arith
calculate_delay_mono exponential base max_delay attempt q r h =
    omega (arith, power_step base attempt, jitter_le q base)
