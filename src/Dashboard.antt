-- ===== src/Dashboard.antt =====
-- api/src/routes/dashboard.ts: the summary of what the user's organizations run. The two times that
-- the handler takes from the clock, now and the last midnight, are arguments.
pub mod Totals
mod Tests
use chronos_job_scheduler.Prelude.{
  ℕ, ◌-◌, ◌*◌, Bool, true, false, ◌&&◌, ◌||◌, List, map, ◌==◌, leb, select, count_where, includes,
  length,
}
use chronos_job_scheduler.Schema.{
  Db, Job, JobStatus, Queue, Project, Worker, WorkerStatus, same_status, is_active_worker,
  is_in_flight,
}
use chronos_job_scheduler.Scope.{org_ids}
use chronos_job_scheduler.Queues.Stats.{is_ended, round_div}

abbrev pub project_ids : ℕ → Db → List ℕ
project_ids user_id db =
    map (λ (p : Project). p.id) (select (λ p. includes p.org_id (org_ids user_id db)) db.projects)

abbrev pub queue_ids : ℕ → Db → List ℕ
queue_ids user_id db =
    map (λ (q : Queue). q.id)
      (select (λ q. includes q.project_id (project_ids user_id db)) db.queues)

-- `status: { in: ['failed', 'dead_letter'] }`
abbrev pub is_failed : JobStatus → Bool
is_failed s = same_status JobStatus.failed s || same_status JobStatus.dead_letter s

-- `jobsPerMinute` is counted in tenths.
pub record Summary : Type 0 where
  pub total_queues : ℕ
  pub active_workers : ℕ
  pub total_workers : ℕ
  pub failed_jobs : ℕ
  pub queued_jobs : ℕ
  pub running_jobs : ℕ
  pub completed_jobs_today : ℕ
  pub jobs_per_minute : ℕ

-- `prisma.job.count` for the user's queues and a condition.
abbrev pub count_jobs : ℕ → (Job → Bool) → Db → ℕ
count_jobs user_id p db =
    count_where (λ (j : Job). includes j.queue_id (queue_ids user_id db) && p j) db.jobs

-- GET /dashboard/summary
pub summary : ℕ → ℕ → ℕ → Db → Summary
summary now midnight user_id db = record {
  total_queues =
      count_where (λ (q : Queue). includes q.project_id (project_ids user_id db)) db.queues;
  active_workers = count_where (λ (w : Worker). is_active_worker w.status) db.workers;
  total_workers = length db.workers;
  failed_jobs = count_jobs user_id (λ j. is_failed j.status) db;
  queued_jobs = count_jobs user_id (λ j. same_status JobStatus.queued j.status) db;
  running_jobs =
      count_jobs user_id
        (λ j. same_status JobStatus.claimed j.status || same_status JobStatus.running j.status) db;
  completed_jobs_today =
      count_jobs user_id
        (λ j. same_status JobStatus.completed j.status && leb midnight j.updated_at) db;
  jobs_per_minute =
      round_div
        (count_jobs user_id (λ j. is_ended j.status && leb (now - 5 * 60 * 1000) j.updated_at) db
          * 10)
        5;
}
