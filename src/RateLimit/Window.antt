-- ===== src/RateLimit/Window.antt =====
-- api/src/middleware/rateLimit.ts: what a bucket holds for a request, and what a request takes.
use chronos_job_scheduler.Prelude.{
  ℕ, ◌+◌, ◌-◌, ◌*◌, ◌≤◌, ◌≡◌, Option, none, some, arith, if◌then◌else◌,
}
use chronos_job_scheduler.RateLimit.Supply.{add_stretches}
use chronos_job_scheduler.RateLimit.{RateLimitConfig, Bucket, token, load, refill, spend, check}

-- What the limiter finds in a bucket at a time, after the refill.
abbrev pub available : RateLimitConfig → ℕ → Option Bucket → ℕ
available c now o = refill c now (load c now o)

-- The bucket is not from a later time.
abbrev pub IsBefore : ℕ → Option Bucket → Type 0
IsBefore now none = Unit
IsBefore now (some b) = b.last_refill ≤ now

pub available_later :
    (c : RateLimitConfig) (start now : ℕ) (o : Option Bucket)
    → IsBefore start o
    → start ≤ now
    → available c now o ≤ available c start o + (now - start) * c.max_tokens
unfolding refill
available_later c start now none before later = omega arith
available_later c start now (some b) before later =
    omega (arith, add_stretches b.last_refill start now c.max_tokens before later)

-- One run of the script: it takes a token if it allows the request, and leaves the rest.
pub check_takes :
    (c : RateLimitConfig) (now : ℕ) (o : Option Bucket)
    → let (d, b) = check c now o in
      ((if d.allowed then token c else 0) + b.tokens ≤ available c now o) × (b.last_refill ≡ now)
unfolding check spend refill
check_takes c now o = ground arith

pub available_max :
    (c : RateLimitConfig) (now : ℕ) (o : Option Bucket) → available c now o ≤ c.max_tokens * token c
unfolding refill
available_max c now none = omega arith
available_max c now (some b) = omega arith

-- Right after a run there is no more than what it left.
pub available_after :
    (c : RateLimitConfig) (now : ℕ) (b : Bucket)
    → b.last_refill ≡ now
    → available c now (some b) ≤ b.tokens
unfolding refill
available_after c now b at =
    let none_passed : now - b.last_refill ≡ 0 = omega (arith, at) in rw none_passed (omega arith)
