-- ===== src/Retry/Tests.antt =====
-- worker/src/retry.ts: tests, and the theorems at the default policy's numbers.
use chronos_job_scheduler.Prelude.{◌≤◌, ◌≡◌, refl, min, arith}
use chronos_job_scheduler.Schema.{linear, exponential}
use chronos_job_scheduler.Retry.{Random, jitter, calculate_delay}
use chronos_job_scheduler.Retry.Bounds.{calculate_delay_range}

abbrev half : Random
half = record { numerator = 1; denominator = 2 }

abbrev most : Random
most = record { numerator = 99; denominator = 100 }

second_attempt : calculate_delay exponential 1000 30000 2 half ≡ 4050
unfolding calculate_delay jitter
second_attempt = refl

at_the_ceiling : calculate_delay exponential 1000 30000 5 half ≡ 30000
unfolding calculate_delay jitter
at_the_ceiling = refl

calculate_delay_range_example :
    (min 1000 30000 ≤ calculate_delay linear 1000 30000 3 half)
    × (calculate_delay linear 1000 30000 3 half ≤ 30000)
calculate_delay_range_example = calculate_delay_range linear 1000 30000 3 half (omega arith)
