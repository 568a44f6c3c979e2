-- ===== src/Executor/Tests.antt =====
-- worker/src/executor.ts: the theorems at a job with the default policy of three attempts.
use chronos_job_scheduler.Prelude.{ℕ, ◌+◌, refl, true, some, none, [], ◌∷◌, arith}
use chronos_job_scheduler.Schema.{Db, JobStatus}
use chronos_job_scheduler.Samples.{empty_db, job, queue}
use chronos_job_scheduler.Executor.{Handle, Surroundings, execute_job}
use chronos_job_scheduler.Executor.Policy.{default_retry, resolve_policy}
use chronos_job_scheduler.Executor.Branches.{Ends, failure_of, execute_job-Ends}
use chronos_job_scheduler.Executor.Attempts.{attempts, IsFailing, IsBuried, attempts-IsBuried}
use chronos_job_scheduler.Executor.Ledger.{Records, execute_job-Records}

abbrev broken : Handle
broken type payload = (record { level = "info"; message = "working" } ∷ [], some "no network")

abbrev run_at : ℕ → Surroundings
run_at t = record {
  execution_id = t;
  started_at = t;
  ended_at = t + 10;
  redis_up = true;
  random = record { numerator = 1; denominator = 2 };
  success_error = none;
  failure_error = none;
}

abbrev db : Db
db = record empty_db {
  jobs = job 1 JobStatus.claimed 0 0 ∷ job 2 JobStatus.queued 0 0 ∷ [];
  queues = queue ∷ [];
}

execute_job-Ends_example :
    Ends
      (run_at 100)
      (resolve_policy db (job 1 JobStatus.claimed 0 0))
      (job 1 JobStatus.claimed 0 0)
      (failure_of broken (run_at 100) (job 1 JobStatus.claimed 0 0))
      (execute_job broken (run_at 100) 1 9 db)
execute_job-Ends_example = execute_job-Ends broken (run_at 100) 1 9 db refl refl refl

execute_job-Records_example :
    Records (run_at 100) (job 1 JobStatus.claimed 0 0) 9 db (execute_job broken (run_at 100) 1 9 db)
execute_job-Records_example = execute_job-Records broken (run_at 100) 1 9 db refl refl

db-IsFailing : IsFailing broken default_retry 1 0 db
unfolding resolve_policy
db-IsFailing = record {
  job = job 1 JobStatus.claimed 0 0;
  found = refl;
  used = refl;
  in_force = refl;
  error = "no network";
  fails = refl;
  no_letter = refl;
}

attempts-IsBuried_example :
    IsBuried 1 3 (attempts broken 1 9 (run_at 100 ∷ run_at 9000 ∷ run_at 20000 ∷ []) db)
attempts-IsBuried_example =
    attempts-IsBuried broken default_retry 1 9 (run_at 100 ∷ run_at 9000 ∷ run_at 20000 ∷ []) 0 db
      (refl, (refl, (refl, tt))) (omega arith) refl db-IsFailing
