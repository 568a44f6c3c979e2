-- ===== src/Claimer/Limit.antt =====
-- worker/src/claimer.ts: the concurrency limit, when claims run one after the other.
use chronos_job_scheduler.Prelude.{ℕ, ◌+◌, ◌-◌, ◌≤◌, ◌≡◌, max, false, length, Distinct, arith}
use chronos_job_scheduler.Schema.{Db}
use chronos_job_scheduler.Claimer.{List, in_flight, claim_jobs}
use chronos_job_scheduler.Claimer.Rows.{ids_of, length-select_for_claim}
use chronos_job_scheduler.Claimer.Effects.{claim_jobs-Marked, in_flight-claim_jobs}

-- On a table with unique identifiers, a claim that commits, and whose count and SELECT see the
-- same table, takes the queue to its limit at most (or leaves it where it was, if it was
-- beyond), and returns as many jobs as the queue gained.
pub claim_jobs_limit :
    (locked : List ℕ) (queue_id limit now : ℕ) (db : Db)
    → Distinct (ids_of db.jobs)
    → let (ids, db') = claim_jobs false locked queue_id limit now db in
      (in_flight queue_id db'.jobs ≡ in_flight queue_id db.jobs + length ids)
      × (in_flight queue_id db'.jobs ≤ max limit (in_flight queue_id db.jobs))
claim_jobs_limit locked queue_id limit now db distinct =
    let grown = in_flight-claim_jobs locked queue_id limit now db distinct in
    let fits =
      length-select_for_claim locked queue_id (limit - in_flight queue_id db.jobs) now db.jobs in
    (grown, rw grown (rw (claim_jobs-Marked locked queue_id limit now db).0 (omega (arith, fits))))
