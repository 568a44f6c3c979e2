-- ===== src/Reaper.antt =====
-- worker/src/heartbeat.ts: the reaper (`startReaper`, `reap`). `died_message` composes the error text
-- of a dead worker's executions. A row that is not there makes `job.update` throw, which the loop
-- catches and logs.
pub mod Requeue
pub mod Unseen
pub mod Survivors
pub mod Steps
pub mod Runs
pub mod Kept
mod Tests
use mathlib.Core.List.{map}
use chronos_job_scheduler.Prelude.{
  ℕ, ◌+◌, ◌*◌, String, Bool, true, false, ◌&&◌, Option, none, some, List, [], ◌∷◌, ◌++◌, ◌==◌, ltb,
  if◌then◌else◌, find_unique, select, update_where, exists_where, delete_where,
}
use chronos_job_scheduler.Schema.{
  Db, Job, JobStatus, JobExecution, ExecutionStatus, Worker, WorkerStatus, worker_dead_requeue,
  publish, is_in_flight, is_running, is_active_worker,
}

-- `[...new Set(xs)]`: the first of each.
abbrev pub unique : List ℕ → List ℕ
unique [] = []
unique (x ∷ xs) = x ∷ delete_where (λ y. y == x) (unique xs)

abbrev pub runs_for : ℕ → JobExecution → Bool
runs_for worker e = e.worker_id == worker && is_running e.status

abbrev pub runs_job : ℕ → JobExecution → Bool
runs_job id e = e.job_id == id && is_running e.status

abbrev pub requeued : ℕ → Job → Job
requeued now j = record j {
  status = JobStatus.queued;
  attempt_count = j.attempt_count + 1;
  updated_at = now;
}

abbrev pub failed_by : (ℕ → String) → ℕ → ℕ → JobExecution → JobExecution
failed_by died_message worker now e = record e {
  status = ExecutionStatus.failed;
  finished_at = some now;
  error_message = some (died_message worker);
}

-- The body of the inner loop.
pub requeue_job : (ℕ → String) → Bool → ℕ → ℕ → Db → ℕ → Db
requeue_job died_message redis_up worker now db id =
    elim (find_unique (λ (j : Job). j.id) id db.jobs) [
      | none ↦ db
      | some job ↦ publish redis_up (worker_dead_requeue id job.queue_id) (record db {
        jobs = update_where (λ j. j.id == id) (requeued now) db.jobs;
        executions = update_where (runs_job id) (failed_by died_message worker now) db.executions;
      })
    ]

pub requeue_jobs : (ℕ → String) → Bool → ℕ → ℕ → List ℕ → Db → Db
unfolding requeue_job
requeue_jobs died_message redis_up worker now [] db = db
requeue_jobs died_message redis_up worker now (id ∷ ids) db =
    requeue_jobs died_message redis_up worker now ids
      (requeue_job died_message redis_up worker now db id)

-- `orphanedJobIds`
pub orphaned_job_ids : ℕ → Db → List ℕ
orphaned_job_ids worker db = unique (map (λ e. e.job_id) (select (runs_for worker) db.executions))

-- `claimedJobs`: in flight, with some running execution of this worker.
pub claimed_jobs : ℕ → Db → List Job
claimed_jobs worker db =
    select
      (λ j.
        is_in_flight j.status
        && exists_where (λ e. e.job_id == j.id && runs_for worker e) db.executions)
      db.jobs

pub all_job_ids : ℕ → Db → List ℕ
unfolding orphaned_job_ids claimed_jobs
all_job_ids worker db =
    unique (orphaned_job_ids worker db ++ map (λ (j : Job). j.id) (claimed_jobs worker db))

pub mark_dead : ℕ → Db → Db
mark_dead worker db = record db {
  workers =
      update_where (λ w. w.id == worker) (λ w. record w { status = WorkerStatus.dead }) db.workers;
}

-- The body of the outer loop, with its early `continue`.
pub reap_worker : (ℕ → String) → Bool → ℕ → Db → ℕ → Db
unfolding mark_dead orphaned_job_ids all_job_ids requeue_jobs
reap_worker died_message redis_up now db worker =
    let marked = mark_dead worker db in
    elim (orphaned_job_ids worker marked) [
      | [] ↦ marked
      | i ∷ is ↦ requeue_jobs died_message redis_up worker now (all_job_ids worker marked) marked
    ]

pub reap_workers : (ℕ → String) → Bool → ℕ → List ℕ → Db → Db
unfolding reap_worker
reap_workers died_message redis_up now [] db = db
reap_workers died_message redis_up now (w ∷ ws) db =
    reap_workers died_message redis_up now ws (reap_worker died_message redis_up now db w)

-- `{ status: "active", lastHeartbeatAt: { lt: now - ttl } }`
abbrev pub is_stale : ℕ → ℕ → Worker → Bool
is_stale ttl_seconds now w =
    is_active_worker w.status && ltb (w.last_heartbeat_at + ttl_seconds * 1000) now

pub reap : (ℕ → String) → Bool → ℕ → ℕ → Db → Db
unfolding reap_workers
reap died_message redis_up ttl_seconds now db =
    reap_workers died_message redis_up now
      (map (λ (w : Worker). w.id) (select (is_stale ttl_seconds now) db.workers)) db
