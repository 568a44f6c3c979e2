-- ===== src/Jobs/Reads/Tests.antt =====
-- api/src/routes/jobs.ts: tests of the reading handlers, and the theorems for one user.
use chronos_job_scheduler.Prelude.{
  ℕ, ◌≡◌, refl, ◌&&◌, some, none, [], ◌∷◌, ◌==◌, if◌then◌else◌, count_where, or_false,
}
use chronos_job_scheduler.Schema.{Db, Job, JobStatus, Project, OrgMembership, member}
use chronos_job_scheduler.Errors.{err, chronos_error, not_found, unexpected}
use chronos_job_scheduler.Samples.{empty_db, job, queue}
use chronos_job_scheduler.Rbac.{find_job}
use chronos_job_scheduler.Scope.Members.{is_ok}
use chronos_job_scheduler.Jobs.Reads.{
  JobQuery, is_asked, visible_jobs, list_jobs, find_visible, get_job,
}
use chronos_job_scheduler.Jobs.Reads.Scoped.{visible_jobs-get_job}

abbrev project : Project
project = record { id = 3; org_id = 2; name = "shop"; api_key = 9; created_at = 0 }

abbrev belongs : OrgMembership
belongs = record { org_id = 2; user_id = 1; role = member }

abbrev db : Db
db = record empty_db {
  projects = project ∷ [];
  memberships = belongs ∷ [];
  queues = queue ∷ [];
  jobs = job 1 JobStatus.queued 0 0 ∷ job 2 JobStatus.failed 0 0 ∷ job 3 JobStatus.queued 5 0 ∷ [];
}

abbrev query : JobQuery
query = record {
  queue_id = none;
  status = some "queued";
  type = none;
  batch_id = none;
  page = none;
  limit = none;
}

-- How ties are broken.
abbrev any : Job → ℕ
any j = j.id

stranger : get_job 4 1 db ≡ err (chronos_error not_found)
unfolding get_job find_visible
stranger = refl

no_such_status : list_jobs any 1 (record query { status = some "paused" }) db ≡ err unexpected
unfolding list_jobs
no_such_status = refl

visible_jobs-get_job_example :
    count_where (λ j. j.id == 3) (visible_jobs any 1 query (some JobStatus.queued) db) ≡ (
      if is_ok (get_job 1 3 db) && or_false (is_asked query (some JobStatus.queued)) (find_job 3 db)
      then 1
      else 0)
visible_jobs-get_job_example =
    visible_jobs-get_job any 1 3 query (some JobStatus.queued) db (refl, (refl, (refl, tt)))
