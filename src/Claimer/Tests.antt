-- ===== src/Claimer/Tests.antt =====
-- worker/src/claimer.ts: tests, and the theorems at a table of four jobs.
use chronos_job_scheduler.Prelude.{
  ◌+◌, ◌≤◌, ◌≡◌, refl, ◌⊎◌, max, true, false, some, List, [], ◌∷◌, length, Distinct,
}
use chronos_job_scheduler.Schema.{Db, Job, JobStatus}
use chronos_job_scheduler.Samples.{empty_db, job}
use chronos_job_scheduler.Claimer.{
  claim_jobs, in_flight, ranks_before, claim_transaction, select_for_claim,
}
use chronos_job_scheduler.Claimer.Rows.{find_job, ids_of, IsFree}
use chronos_job_scheduler.Claimer.Effects.{claim_jobs-claimed, claimed_at}
use chronos_job_scheduler.Claimer.Order.{claim_jobs_best}
use chronos_job_scheduler.Claimer.Limit.{claim_jobs_limit}
use chronos_job_scheduler.Claimer.Locks.{Step, select_rows, commit, rollback, run, locked_ids}
use chronos_job_scheduler.Claimer.Locks.Races.{tally, queued_now, idle, run_claims_once}

abbrev four_jobs : List Job
four_jobs =
    job 1 JobStatus.claimed 0 0
    ∷ job 2 JobStatus.queued 1 50
    ∷ job 3 JobStatus.queued 9 60
    ∷ job 4 JobStatus.queued 5 500
    ∷ []

abbrev four : Db
four = record empty_db { jobs = four_jobs }

four-Distinct : Distinct (ids_of four_jobs)
four-Distinct = (refl, (refl, (refl, (refl, tt))))

-- One place is left of two: the job of priority 9 takes it; the one of priority 5 is not due.
takes_the_best : (claim_jobs false [] 7 2 100 four).0 ≡ 3 ∷ []
unfolding claim_jobs in_flight claim_transaction select_for_claim
takes_the_best = refl

skips_locked : (claim_jobs false (3 ∷ []) 7 2 100 four).0 ≡ 2 ∷ []
unfolding claim_jobs in_flight claim_transaction select_for_claim
skips_locked = refl

full_queue : claim_jobs false [] 7 1 100 four ≡ ([], four)
unfolding claim_jobs in_flight
full_queue = refl

claim_jobs-claimed_example :
    (j : Job) × (find_job 3 four_jobs ≡ some j)
    × IsFree [] 7 100 j
    × (find_job 3 (claim_jobs false [] 7 2 100 four).1.jobs ≡ some (claimed_at 100 j))
unfolding claim_jobs in_flight claim_transaction select_for_claim
claim_jobs-claimed_example = claim_jobs-claimed [] 7 2 100 four four-Distinct 3 refl

claim_jobs_best_example :
    ranks_before (job 3 JobStatus.queued 9 60) (job 2 JobStatus.queued 1 50) ≡ true
unfolding claim_jobs in_flight claim_transaction select_for_claim
claim_jobs_best_example =
    claim_jobs_best [] 7 2 100 four four-Distinct 3 2 refl refl refl (refl, refl) refl

claim_jobs_limit_example :
    (in_flight 7 (claim_jobs false [] 7 2 100 four).1.jobs
      ≡ in_flight 7 four_jobs + length (claim_jobs false [] 7 2 100 four).0)
    × (in_flight 7 (claim_jobs false [] 7 2 100 four).1.jobs ≤ max 2 (in_flight 7 four_jobs))
claim_jobs_limit_example = claim_jobs_limit [] 7 2 100 four four-Distinct

-- Two workers select before either commits, one of them rolls back.
abbrev race : List Step
race = select_rows 1 7 1 100 ∷ select_rows 2 7 1 100 ∷ commit 1 100 ∷ rollback 2 ∷ []

run_claims_once_example :
    (tally 3 (locked_ids (run (idle four_jobs) race).open_transactions)
        + tally 3 (run (idle four_jobs) race).history
      ≤ 1)
    × ((tally 3 (run (idle four_jobs) race).history ≡ 0)
        ⊎ (queued_now 3 (run (idle four_jobs) race).jobs ≡ false))
run_claims_once_example = run_claims_once four_jobs race four-Distinct 3
