-- ===== src/Reaper/Tests.antt =====
-- worker/src/heartbeat.ts: the reaper's theorems at a worker that died at work.
use chronos_job_scheduler.Prelude.{ℕ, ◌≡◌, refl, String, true, some, [], ◌∷◌}
use chronos_job_scheduler.Schema.{Db, JobStatus}
use chronos_job_scheduler.Samples.{empty_db, job, worker, execution}
use chronos_job_scheduler.Reaper.{reap, reap_worker}
use chronos_job_scheduler.Reaper.Unseen.{find_job, reap_unseen}
use chronos_job_scheduler.Reaper.Requeue.{IsRequeued, reap_worker-IsRequeued}

abbrev died : ℕ → String
died worker = "Worker died"

-- Job 1 runs on worker 1, job 2 was only claimed.
abbrev at_work : Db
at_work = record empty_db {
  jobs = job 1 JobStatus.running 0 0 ∷ job 2 JobStatus.claimed 0 0 ∷ [];
  executions = execution 8 1 1 ∷ [];
  workers = worker 1 0 ∷ worker 2 40000 ∷ [];
}

reap_unseen_example :
    find_job 2 (reap died true 30 50000 at_work).jobs ≡ some (job 2 JobStatus.claimed 0 0)
reap_unseen_example = reap_unseen died true 30 50000 2 at_work refl

reap_worker-IsRequeued_example :
    IsRequeued 50000 (job 1 JobStatus.running 0 0) 1 (reap_worker died true 50000 at_work 1)
reap_worker-IsRequeued_example = reap_worker-IsRequeued died true 50000 1 1 at_work refl refl
