-- ===== src/Executor/Rows.antt =====
-- worker/src/executor.ts: the job rows after each part of `executeJob`.
use mathlib.Core.Option
use chronos_job_scheduler.Prelude.{
  ℕ, ◌+◌, ◌≡◌, refl, String, Option, List, ◌==◌, if◌then◌else◌, find_unique, find_unique-update_key,
  update_where,
}
use chronos_job_scheduler.Schema.{Db, Job, JobStatus}
use chronos_job_scheduler.Executor.{
  LogEntry, Surroundings, is_job, start_execution, complete_job, retry_job, bury_job,
}
use chronos_job_scheduler.Executor.Policy.{EffectivePolicy}

abbrev pub find_job : ℕ → List Job → Option Job
find_job = find_unique (λ j. j.id)

-- `UPDATE jobs … WHERE id = …`
pub find_job-update :
    (k id : ℕ) (f : Job → Job) (jobs : List Job)
    → ((j : Job) → (f j).id ≡ j.id)
    → find_job k (update_where (is_job id) f jobs)
      ≡ (if k == id then Option.map f (find_job k jobs) else find_job k jobs)
find_job-update k id f jobs h = find_unique-update_key (λ (j : Job). j.id) k (λ i. i == id) f jobs h

abbrev pub started : Surroundings → Job → Job
started s j = record j { status = JobStatus.running; updated_at = s.started_at }

abbrev pub completed_row : Surroundings → Job → Job
completed_row s j = record j { status = JobStatus.completed; updated_at = s.ended_at }

abbrev pub retried_row : Surroundings → ℕ → Job → Job → Job
retried_row s delay_ms job j = record j {
  status = JobStatus.queued;
  attempt_count = job.attempt_count + 1;
  run_at = s.ended_at + delay_ms;
  updated_at = s.ended_at;
}

abbrev pub buried_row : Surroundings → Job → Job → Job
buried_row s job j = record j {
  status = JobStatus.dead_letter;
  attempt_count = job.attempt_count + 1;
  updated_at = s.ended_at;
}

module _ (s : Surroundings) (job : Job) (k : ℕ) (db : Db) where
  pub find_job-start_execution :
      (worker : ℕ)
      → find_job k (start_execution s job worker db).jobs
        ≡ (if k == job.id then Option.map (started s) (find_job k db.jobs) else find_job k db.jobs)
  unfolding start_execution
  find_job-start_execution worker = find_job-update k job.id (started s) db.jobs (λ j. refl)

  pub find_job-complete_job :
      (buffer : List LogEntry)
      → find_job k (complete_job s job buffer db).jobs ≡ (
          if k == job.id
          then Option.map (completed_row s) (find_job k db.jobs)
          else find_job k db.jobs)
  unfolding complete_job
  find_job-complete_job buffer = find_job-update k job.id (completed_row s) db.jobs (λ j. refl)

  pub find_job-retry_job :
      (policy : EffectivePolicy) (delay_ms : ℕ) (error : String) (buffer : List LogEntry)
      → find_job k (retry_job s policy job delay_ms error buffer db).jobs ≡ (
          if k == job.id
          then Option.map (retried_row s delay_ms job) (find_job k db.jobs)
          else find_job k db.jobs)
  unfolding retry_job
  find_job-retry_job policy delay_ms error buffer =
      find_job-update k job.id (retried_row s delay_ms job) db.jobs (λ j. refl)

  pub find_job-bury_job :
      (error : String) (buffer : List LogEntry)
      → find_job k (bury_job s job error buffer db).jobs ≡ (
          if k == job.id
          then Option.map (buried_row s job) (find_job k db.jobs)
          else find_job k db.jobs)
  unfolding bury_job
  find_job-bury_job error buffer = find_job-update k job.id (buried_row s job) db.jobs (λ j. refl)
