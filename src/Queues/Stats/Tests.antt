-- ===== src/Queues/Stats/Tests.antt =====
-- api/src/routes/queues.ts: tests of the counts, and the theorem on them at one project.
use chronos_job_scheduler.Prelude.{◌≡◌, refl, some, none, [], ◌∷◌, All}
use chronos_job_scheduler.Schema.{Db, Project, JobStatus}
use chronos_job_scheduler.Errors.{ok}
use chronos_job_scheduler.Samples.{empty_db, job, queue}
use chronos_job_scheduler.Listing.{Listing}
use chronos_job_scheduler.Queues.Stats.{
  QueueSummary, stats_of, list_queues, assign_counts, sum_counts,
}
use chronos_job_scheduler.Queues.Stats.Counts.{IsCounted, list_queues-counts}

abbrev project : Project
project = record { id = 3; org_id = 2; name = "shop"; api_key = 9; created_at = 0 }

abbrev db : Db
db = record empty_db {
  projects = project ∷ [];
  queues = queue ∷ [];
  jobs = job 1 JobStatus.queued 0 0 ∷ job 2 JobStatus.failed 0 0 ∷ job 3 JobStatus.queued 0 0 ∷ [];
}

listed : (answer : Listing QueueSummary) × (list_queues 3 none none db ≡ ok answer)
unfolding list_queues
listed = (_, refl)

list_queues-counts_example : All (IsCounted db) listed.0.rows
list_queues-counts_example = list_queues-counts 3 none none db listed.1

two_queued : (stats_of 0 7 db).by_status JobStatus.queued ≡ some 2
unfolding stats_of assign_counts sum_counts
two_queued = refl
