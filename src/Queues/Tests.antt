-- ===== src/Queues/Tests.antt =====
-- api/src/routes/queues.ts: tests, and the theorems at one project.
use chronos_job_scheduler.Prelude.{
  ℕ, ◌+◌, ◌≤◌, ◌≡◌, refl, arith, true, false, some, none, List, [], ◌∷◌, if_holds,
}
use chronos_job_scheduler.Schema.{Db, Project, JobStatus}
use chronos_job_scheduler.Errors.{err, unique_violation}
use chronos_job_scheduler.Samples.{empty_db, job, queue}
use chronos_job_scheduler.Queues.{CreateQueue, is_valid_queue, has_name, create_queue, insert_queue}
use chronos_job_scheduler.Queues.Settings.{
  Change, creates, updates, changes, IsConfigured, changes-IsConfigured,
}

abbrev project : Project
project = record { id = 3; org_id = 2; name = "shop"; api_key = 9; created_at = 0 }

abbrev db : Db
db = record empty_db {
  projects = project ∷ [];
  queues = queue ∷ [];
  jobs = job 1 JobStatus.queued 0 0 ∷ job 2 JobStatus.failed 0 0 ∷ job 3 JobStatus.queued 0 0 ∷ [];
}

abbrev reports : CreateQueue
reports = record {
  name = "Reports_1";
  priority = none;
  concurrency_limit = some 1000;
  default_retry_policy_id = none;
}

no_spaces : is_valid_queue (record reports { name = "two words" }) ≡ false
no_spaces = refl

taken_name : create_queue 5 8 3 (record reports { name = "mail" }) db ≡ err unique_violation
unfolding create_queue insert_queue
taken_name = refl

abbrev requests : List Change
requests =
    creates 5 8 3 reports
    ∷ updates 8 (record { priority = some 101; concurrency_limit = none; is_paused = none })
    ∷ updates 8 (record { priority = some 100; concurrency_limit = none; is_paused = some true })
    ∷ []

configured : IsConfigured db
unfolding IsConfigured
configured = (
  ((omega arith, omega arith, omega arith), tt),
  λ p name. if_holds (λ (n : ℕ). n + 0 ≤ 1) (has_name p name queue) 1 0 (omega arith) (omega arith),
)

changes-IsConfigured_example : IsConfigured (changes requests db)
changes-IsConfigured_example = changes-IsConfigured requests db configured
