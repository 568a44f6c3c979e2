-- ===== src/Retry.antt =====
-- worker/src/retry.ts: `calculateDelay`. `Math.random()` is the fraction `n / d`; the products that
-- JavaScript rounds to doubles are exact here.
pub mod Bounds
mod Tests
use chronos_job_scheduler.Prelude.{ℕ, ◌+◌, ◌*◌, ◌/◌, ◌^◌, min}
use chronos_job_scheduler.Schema.{RetryStrategy, fixed, linear, exponential}

-- A value of `Math.random()`, as a fraction.
pub record Random : Type 0 where
  pub numerator : ℕ
  pub denominator : ℕ

-- `Math.floor(Math.random() * baseDelayMs * 0.1)`
pub jitter : Random → ℕ → ℕ
jitter r base = r.numerator * base / (r.denominator * 10)

pub calculate_delay : RetryStrategy → ℕ → ℕ → ℕ → Random → ℕ
calculate_delay fixed base max_delay attempt r = min base max_delay
calculate_delay linear base max_delay attempt r = min (base * attempt) max_delay
calculate_delay exponential base max_delay attempt r =
    min (base * 2 ^ attempt + jitter r base) max_delay
