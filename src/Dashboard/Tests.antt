-- ===== src/Dashboard/Tests.antt =====
-- api/src/routes/dashboard.ts: tests, and the theorem for one user.
use chronos_job_scheduler.Prelude.{◌+◌, ◌≡◌, refl, [], ◌∷◌}
use chronos_job_scheduler.Schema.{Db, JobStatus, Project, OrgMembership, member}
use chronos_job_scheduler.Samples.{empty_db, job, queue}
use chronos_job_scheduler.Jobs.Reads.{list_jobs}
use chronos_job_scheduler.Dashboard.{summary}
use chronos_job_scheduler.Dashboard.Totals.{status_query, total_of, summary-list_jobs}

abbrev project : Project
project = record { id = 3; org_id = 2; name = "shop"; api_key = 9; created_at = 0 }

abbrev belongs : OrgMembership
belongs = record { org_id = 2; user_id = 1; role = member }

abbrev db : Db
db = record empty_db {
  projects = project ∷ [];
  memberships = belongs ∷ [];
  queues = queue ∷ [];
  jobs =
      job 1 JobStatus.queued 0 0
      ∷ job 2 JobStatus.failed 0 0
      ∷ job 3 JobStatus.running 5 0
      ∷ job 4 JobStatus.dead_letter 5 0
      ∷ [];
}

two_failed : (summary 1000 0 1 db).failed_jobs ≡ 2
unfolding summary
two_failed = refl

none_of_others : (summary 1000 0 4 db).failed_jobs ≡ 0
unfolding summary
none_of_others = refl

summary-list_jobs_example :
    ((summary 1000 0 1 db).queued_jobs
      ≡ total_of (list_jobs (λ j. j.id) 1 (status_query "queued") db))
    × ((summary 1000 0 1 db).running_jobs
        ≡ total_of (list_jobs (λ j. j.id) 1 (status_query "claimed") db)
          + total_of (list_jobs (λ j. j.id) 1 (status_query "running") db))
    × ((summary 1000 0 1 db).failed_jobs
        ≡ total_of (list_jobs (λ j. j.id) 1 (status_query "failed") db)
          + total_of (list_jobs (λ j. j.id) 1 (status_query "dead_letter") db))
summary-list_jobs_example = summary-list_jobs (λ status j. j.id) 1000 0 1 db (refl, tt) (refl, tt)
