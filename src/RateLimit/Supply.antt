-- ===== src/RateLimit/Supply.antt =====
-- api/src/middleware/rateLimit.ts: how many requests a client gets through over any stretch of time.
use mathlib.Core.Path.{subst}
use chronos_job_scheduler.Prelude.{
  ap, ℕ, ◌+◌, ◌-◌, ◌*◌, ◌≤◌, ◌≡◌, Bool, true, false, some, List, [], ◌∷◌, arith, if◌then◌else◌,
}
use chronos_job_scheduler.RateLimit.{
  RateLimitConfig, token, Bucket, refill, spend, check, allowed_count,
}
use chronos_job_scheduler.RateLimit.Expiry.{check-held}

-- The times do not fall, from this one on, and none is after `end`.
abbrev pub IsTimeline : ℕ → ℕ → List ℕ → Type 0
IsTimeline start end [] = start ≤ end
IsTimeline start end (t ∷ ts) = (start ≤ t) × IsTimeline t end ts

-- What one request takes and leaves is at most what was there and what time added.
check_spends :
    (c : RateLimitConfig) (now : ℕ) (b : Bucket)
    → let (d, b') = check c now (some b) in
      ((if d.allowed then token c else 0) + b'.tokens
        ≤ b.tokens + (now - b.last_refill) * c.max_tokens)
      × (b'.last_refill ≡ now)
unfolding check spend refill
check_spends c now b = ground arith

pub timeline_le : (start end : ℕ) (times : List ℕ) → IsTimeline start end times → start ≤ end
timeline_le start end [] h = h
timeline_le start end (t ∷ ts) h = omega (arith, timeline_le t end ts h.1)

pub add_stretches : (a b c k : ℕ) → a ≤ b → b ≤ c → (b - a) * k + (c - b) * k ≡ (c - a) * k
add_stretches a b c k h g =
    let whole : (b - a) + (c - b) ≡ c - a = omega arith in
    omega (arith, ap (λ (t : ℕ). t * k) whole)

one_more :
    (allowed : Bool) (n unit left have early late all : ℕ)
    → (if allowed then unit else 0) + left ≤ have + early
    → n * unit ≤ left + late
    → early + late ≡ all
    → ((if allowed then 1 else 0) + n) * unit ≤ have + all
one_more true n unit left have early late all h g e = omega (arith, h, g, e)
one_more false n unit left have early late all h g e = omega (arith, h, g, e)

-- For requests at times in order, from the bucket's last refill on, the tokens of the requests
-- that pass are at most the tokens in the bucket and those that the time up to the end adds,
-- `maxTokens` for each window, whether or not the key expires in between.
pub allowed_count_bound :
    (c : RateLimitConfig) (times : List ℕ) (b : Bucket) (end : ℕ)
    → IsTimeline b.last_refill end times
    → (allowed_count c times b).0 * token c ≤ b.tokens + (end - b.last_refill) * c.max_tokens
unfolding allowed_count
allowed_count_bound c [] b end h = omega arith
allowed_count_bound c (now ∷ times) b end (before, rest) =
    let after = (check c now (some b)).1 in
    let spent = check_spends c now b in
    let here : now ≤ end = timeline_le now end times rest in
    let later = allowed_count_bound c times after end (rw spent.1 rest) in
    let stretch : (now - b.last_refill) * c.max_tokens + (end - now) * c.max_tokens
        ≡ (end - b.last_refill) * c.max_tokens =
      add_stretches b.last_refill now end c.max_tokens before here in
    let later' : (allowed_count c times after).0 * token c
        ≤ after.tokens + (end - now) * c.max_tokens =
      subst
        (λ t. (allowed_count c times after).0 * token c ≤ after.tokens + (end - t) * c.max_tokens)
        spent.1 later in
    rw (check-held c now b) (
      one_more (check c now (some b)).0.allowed (allowed_count c times after).0 (token c) _ _ _ _ _
        spent.0 later' stretch)
