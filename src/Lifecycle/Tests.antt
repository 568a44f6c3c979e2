-- ===== src/Lifecycle/Tests.antt =====
-- worker/src/index.ts: the theorems at a worker that is told to stop while a job runs.
use chronos_job_scheduler.Prelude.{◌≡◌, refl, true, false, some, [], ◌∷◌}
use chronos_job_scheduler.Schema.{Db, JobStatus}
use chronos_job_scheduler.Samples.{empty_db, job, worker, execution}
use chronos_job_scheduler.Poller.{stop_poller}
use chronos_job_scheduler.Reaper.{reap}
use chronos_job_scheduler.Lifecycle.{
  Host, Waiting, timed_out, shutdown, set_status, wait_for_in_flight,
}
use chronos_job_scheduler.Lifecycle.Shutdown.{reap-shutdown}

abbrev host : Host
host = record {
  worker_id = some 1;
  shutting_down = false;
  process = record { running = true; stopping = false; in_flight = 1 ∷ []; active_jobs = 1 };
  exited = false;
}

abbrev db : Db
db = record empty_db {
  jobs = job 1 JobStatus.running 0 0 ∷ [];
  executions = execution 8 1 1 ∷ [];
  workers = worker 1 0 ∷ [];
}

abbrev nothing : Waiting
nothing = timed_out [] (λ db. db)

-- The job is lost: it is `running` for a worker that has exited, and is not requeued.
reap-shutdown_example :
    reap (λ id. "died") true 30 900000 (shutdown false false nothing (host, db)).1
    ≡ (shutdown false false nothing (host, db)).1
unfolding shutdown set_status wait_for_in_flight stop_poller
reap-shutdown_example =
    reap-shutdown (λ id. "died") true false 30 900000 1 nothing host db refl refl refl
