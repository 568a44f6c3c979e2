-- ===== src/RateLimit.antt =====
-- api/src/middleware/rateLimit.ts: the token bucket of the Lua script. Time is in milliseconds
-- (`Date.now()`), and an amount of tokens is kept multiplied by `windowSecs * 1000`, so that
-- `elapsed / windowSec * maxTok` is the whole number `elapsed * maxTok`; the script's own arithmetic is
-- in doubles. `none` is a key that Redis does not hold, never written or expired.
pub mod Bounds
pub mod Expiry
pub mod Supply
pub mod Window
mod Tests
use chronos_job_scheduler.Prelude.{
  ℕ, zero, suc, ◌+◌, ◌-◌, ◌*◌, ◌/◌, min, Bool, true, false, Option, none, some, List, [], ◌∷◌, ltb,
  leb, ◌==◌, if◌then◌else◌,
}

pub record RateLimitConfig : Type 0 where
  pub max_tokens : ℕ
  pub window_secs : ℕ

abbrev pub job_submission_limit : RateLimitConfig
job_submission_limit = record { max_tokens = 100; window_secs = 60 }

abbrev pub auth_limit : RateLimitConfig
auth_limit = record { max_tokens = 10; window_secs = 60 }

-- The scale of one token.
abbrev pub token : RateLimitConfig → ℕ
token c = c.window_secs * 1000

pub record Bucket : Type 0 where
  pub tokens : ℕ
  pub last_refill : ℕ

-- `HMGET`, with `maxTok` and `now` where there is no bucket.
abbrev pub load : RateLimitConfig → ℕ → Option Bucket → Bucket
load c now none = record { tokens = c.max_tokens * token c; last_refill = now }
load c now (some b) = b

-- `math.min(maxTok, tokens + refill)`
pub refill : RateLimitConfig → ℕ → Bucket → ℕ
refill c now b = min (c.max_tokens * token c) (b.tokens + (now - b.last_refill) * c.max_tokens)

-- `math.ceil`
abbrev pub ceil_div : ℕ → ℕ → ℕ
ceil_div a b = (a + (b - 1)) / b

-- The script's result: whether the request is allowed, and the seconds to wait if it is not.
pub record Decision : Type 0 where
  pub allowed : Bool
  pub retry_after : ℕ

-- The script after the refill, with this many tokens there.
pub spend : RateLimitConfig → ℕ → ℕ → Decision × Bucket
spend c now tokens =
    if ltb tokens (token c)
    then (
      record { allowed = false; retry_after = ceil_div (token c - tokens) (1000 * c.max_tokens) },
      record { tokens = tokens; last_refill = now },
    )
    else (
      record { allowed = true; retry_after = 0 },
      record { tokens = tokens - token c; last_refill = now },
    )

pub check : RateLimitConfig → ℕ → Option Bucket → Decision × Bucket
unfolding refill spend
check c now stored = spend c now (refill c now (load c now stored))

-- `EXPIRE key (windowSec * 2)`: what Redis holds at a later time.
abbrev pub held : RateLimitConfig → ℕ → Bucket → Option Bucket
held c now b = if leb (b.last_refill + c.window_secs * 2 * 1000) now then none else some b

-- The requests of one client at one endpoint, at these times; the number allowed, and the bucket.
pub allowed_count : RateLimitConfig → List ℕ → Bucket → ℕ × Bucket
allowed_count c [] b = (0, b)
allowed_count c (now ∷ times) b =
    let (d, b') = check c now (held c now b) in
    let (n, end) = allowed_count c times b' in ((if d.allowed then 1 else 0) + n, end)
