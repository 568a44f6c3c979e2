-- ===== src/RateLimit/Bounds.antt =====
-- api/src/middleware/rateLimit.ts: the bucket's range, and the wait that a refused client is told.
use native.Mathlib.Nat.{mul-le-mul_right, mod-lt, div-add-mod}
use chronos_job_scheduler.Prelude.{
  not, ℕ, ◌+◌, ◌-◌, ◌*◌, ◌≤◌, ◌<◌, ◌≡◌, true, false, Option, arith, if◌then◌else◌, ltb,
}
use chronos_job_scheduler.RateLimit.{
  spend, RateLimitConfig, token, Bucket, load, refill, ceil_div, check, held,
}
use chronos_job_scheduler.RateLimit.Expiry.{check-held}

-- `ceil` is an upper bound of the quotient.
ceil_div_bound : (a b : ℕ) → 0 < b → a ≤ ceil_div a b * b
ceil_div_bound a b h = omega (arith, mod-lt (a + (b - 1)) h, div-add-mod (a + (b - 1)) b)

spend_refused :
    (c : RateLimitConfig) (now tokens : ℕ)
    → (spend c now tokens).0.allowed ≡ false
    → ((spend c now tokens).0.retry_after ≡ ceil_div (token c - tokens) (1000 * c.max_tokens))
      × ((spend c now tokens).1 ≡ record { tokens = tokens; last_refill = now })
unfolding spend
spend_refused c now tokens h = ground arith

spend_allowed :
    (c : RateLimitConfig) (now tokens : ℕ)
    → token c ≤ tokens
    → (spend c now tokens).0.allowed ≡ true
unfolding spend
spend_allowed c now tokens h = ground arith

-- After the wait there is a token.
token_after_wait :
    (c : RateLimitConfig) (now later tokens : ℕ)
    → 1 ≤ c.max_tokens
    → now + ceil_div (token c - tokens) (1000 * c.max_tokens) * 1000 ≤ later
    → token c ≤ refill c later (record { tokens = tokens; last_refill = now })
unfolding refill
token_after_wait c now later tokens h waited =
    let wait = ceil_div (token c - tokens) (1000 * c.max_tokens) in
    let enough : token c - tokens ≤ wait * (1000 * c.max_tokens) =
      ceil_div_bound _ _ (omega (arith, h)) in
    let gained : wait * 1000 * c.max_tokens ≤ (later - now) * c.max_tokens =
      mul-le-mul_right c.max_tokens (omega arith) in
    let room : 1 * token c ≤ c.max_tokens * token c = mul-le-mul_right (token c) h in
    omega (arith, enough, gained, room)

-- With a limit of at least one request, a refused client that waits as long as the script told
-- it, or longer, and asks again is allowed, whether or not its key expired meanwhile.
pub check_after_wait :
    (c : RateLimitConfig) (now later : ℕ) (stored : Option Bucket)
    → 1 ≤ c.max_tokens
    → (check c now stored).0.allowed ≡ false
    → now + (check c now stored).0.retry_after * 1000 ≤ later
    → (check c later (held c later (check c now stored).1)).0.allowed ≡ true
unfolding check
check_after_wait c now later stored some_tokens refused waited =
    let tokens = refill c now (load c now stored) in
    let (waits, left) = spend_refused c now tokens refused in
    rw (check-held c later (check c now stored).1, left)
      (spend_allowed c later _
        (token_after_wait c now later tokens some_tokens (rw (← waits) waited)))

-- A request leaves the bucket within its capacity, refilled at this moment; it is refused
-- exactly if less than one token was there after the refill, and else takes exactly one.
pub check_takes_one :
    (c : RateLimitConfig) (now : ℕ) (stored : Option Bucket)
    → let (d, b) = check c now stored in
      let available = refill c now (load c now stored) in
      (b.tokens ≤ c.max_tokens * token c)
      × (b.last_refill ≡ now)
      × (b.tokens + (if d.allowed then token c else 0) ≡ available)
      × (d.allowed ≡ not (ltb available (token c)))
unfolding check refill
check_takes_one c now stored = ground arith
