-- ===== src/WebPages/JobList/Tests.antt =====
-- web/app/jobs/page.tsx: tests, and the theorems at a user with two jobs.
use chronos_job_scheduler.Prelude.{true, ℕ, ◌≡◌, refl, Option, none, some, [], ◌∷◌}
use chronos_job_scheduler.Schema.{Db, Job, JobStatus, admin}
use chronos_job_scheduler.Samples.{empty_db, queue, job}
use chronos_job_scheduler.Listing.{Listing}
use chronos_job_scheduler.Jobs.Reads.{JobQuery, JobSummary}
use chronos_job_scheduler.WebPages.JobList.{JobsPage, Event, step, run, start}
use chronos_job_scheduler.WebPages.JobList.Shown.{answer_of}

abbrev db : Db
db = record empty_db {
  queues = queue ∷ [];
  projects = record { id = 3; org_id = 2; name = "p"; api_key = 30; created_at = 0 } ∷ [];
  memberships = record { org_id = 2; user_id = 1; role = admin } ∷ [];
  jobs = job 40 JobStatus.queued 0 0 ∷ job 41 JobStatus.failed 0 0 ∷ [];
}

abbrev tie : JobQuery → Job → ℕ
tie q j = j.id

-- The first answer has come.
abbrev page : JobsPage
page = run (answer_of tie 1 db) (Event.arrives 0 ∷ []) start

-- A total of 5 without a filter, and of 1 with one.
abbrev serve : JobQuery → Option (Listing JobSummary)
serve q = elim q.status [
  | none ↦
      some
        (record { rows = []; meta = record { page = 1; limit = 20; total = 5; total_pages = 1 } })
  | some s ↦
      some
        (record { rows = []; meta = record { page = 1; limit = 20; total = 1; total_pages = 1 } })
]

-- The first answer comes after the second, and stays.
stale :
    let p =
      run serve (Event.chooses_status "failed" ∷ Event.arrives 1 ∷ Event.arrives 0 ∷ []) start in
    (p.pending ≡ []) × (p.filter_status ≡ "failed") × (p.total ≡ 5)
unfolding run step
stale = (refl, refl, refl)

-- A retry is answered after the filter has changed: the listing without a filter comes last, and stays.
stale_retry :
    let p =
      run serve
        (Event.arrives 0
          ∷ Event.chooses_status "failed"
          ∷ Event.arrives 0
          ∷ Event.retries start true
          ∷ Event.arrives 0
          ∷ [])
        start in
    (p.pending ≡ []) × (p.filter_status ≡ "failed") × (p.total ≡ 5)
unfolding run step
stale_retry = (refl, refl, refl)
