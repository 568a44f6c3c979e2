-- ===== src/JobStates/Tests.antt =====
-- The state machine of jobs at a failing run, a reaper cycle, a retry and a cancellation.
use chronos_job_scheduler.Prelude.{◌≡◌, refl, true, some, List, none, some, [], ◌∷◌}
use chronos_job_scheduler.Schema.{Db, Job, JobStatus}
use chronos_job_scheduler.Samples.{empty_db, job, queue}
use chronos_job_scheduler.Executor.{Handle, Surroundings}
use chronos_job_scheduler.Executor.Rows.{find_job}
use chronos_job_scheduler.JobStates.{
  false, Operation, executing, reaping, retrying, cancelling, operate_all, AreReady, IsReady,
  Accounted, Passes,
}
use chronos_job_scheduler.JobStates.Histories.{operate_all-Passes}

abbrev fails : Handle
fails type payload = ([], some "no")

abbrev db : Db
db = record empty_db { jobs = job 1 JobStatus.claimed 0 0 ∷ []; queues = queue ∷ [] }

abbrev surroundings : Surroundings
surroundings = record {
  execution_id = 5;
  started_at = 10;
  ended_at = 20;
  redis_up = true;
  random = record { numerator = 1; denominator = 2 };
  success_error = none;
  failure_error = none;
}

abbrev failing_run : Operation
failing_run = executing fails surroundings 1 4

abbrev day : List Operation
day =
    failing_run
    ∷ reaping (λ worker. "died") true 60 100000
    ∷ retrying true 100010 1
    ∷ cancelling false 100020 1
    ∷ []

ready : AreReady day db
unfolding AreReady IsReady
ready = (((job 1 JobStatus.claimed 0 0, refl, refl), refl), (tt, (tt, (tt, tt))))

operate_all-Passes_example :
    Accounted (operate_all day db)
    × ((i : Job) × (find_job 1 (operate_all day db).jobs ≡ some i)
        × Passes day JobStatus.claimed i.status)
operate_all-Passes_example = operate_all-Passes day 1 db (refl, tt) tt ready refl
