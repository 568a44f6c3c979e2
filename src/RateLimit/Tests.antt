-- ===== src/RateLimit/Tests.antt =====
-- api/src/middleware/rateLimit.ts: the theorems at the limit for logins, 10 in 60 seconds.
use chronos_job_scheduler.Prelude.{◌≡◌, refl, true, false, some, arith}
use chronos_job_scheduler.RateLimit.{Bucket, auth_limit, refill, spend, check, held}
use chronos_job_scheduler.RateLimit.Bounds.{check_after_wait}

abbrev empty_bucket : Bucket
empty_bucket = record { tokens = 0; last_refill = 1000 }

refused :
    check auth_limit 1000 (some empty_bucket)
    ≡ (record { allowed = false; retry_after = 6 }, empty_bucket)
unfolding check spend refill
refused = refl

check_after_wait_example :
    (check auth_limit 7000
      (held auth_limit 7000 (check auth_limit 1000 (some empty_bucket)).1)).0.allowed
    ≡ true
unfolding check spend refill
check_after_wait_example =
    check_after_wait auth_limit 1000 7000 (some empty_bucket) (omega arith) refl (omega arith)
