-- ===== src/RateLimit/Expiry.antt =====
-- api/src/middleware/rateLimit.ts: the expiry of the key.
use native.Mathlib.Nat.{mul-le-mul_right}
use chronos_job_scheduler.Prelude.{ap}
use chronos_job_scheduler.Prelude.{
  ℕ, ◌+◌, ◌-◌, ◌*◌, ◌≡◌, refl, some, leb, leb→le, arith, Bool-cases, inl, inr,
}
use chronos_job_scheduler.RateLimit.{spend, RateLimitConfig, Bucket, load, refill, check, held}

refill-held :
    (c : RateLimitConfig) (now : ℕ) (b : Bucket)
    → refill c now (load c now (held c now b)) ≡ refill c now b
unfolding refill
refill-held c now b = elim (Bool-cases (leb (b.last_refill + c.window_secs * 2 * 1000) now)) [
  | inl gone ↦ rw gone (
      omega (
        arith,
        leb→le _ _ gone,
        mul-le-mul_right {m = c.window_secs * 2 * 1000} {n = now - b.last_refill} c.max_tokens
            (omega (arith, leb→le _ _ gone)),
      ))
  | inr kept ↦ rw kept refl
]

-- Whenever a request comes, it is decided, and the bucket left, as if the key of the bucket
-- never expired.
pub check-held :
    (c : RateLimitConfig) (now : ℕ) (b : Bucket) → check c now (held c now b) ≡ check c now (some b)
unfolding check
check-held c now b = ap (spend c now) (refill-held c now b)
