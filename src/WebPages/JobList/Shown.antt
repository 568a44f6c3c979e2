-- ===== src/WebPages/JobList/Shown.antt =====
-- web/app/jobs/page.tsx over GET /jobs of api/src/routes/jobs.ts: the rows that a user sees.
use chronos_job_scheduler.Prelude.{ℕ, ◌≤◌, Option, none, some}
use chronos_job_scheduler.Schema.{Db, Job}
use chronos_job_scheduler.Errors.{ok, err}
use chronos_job_scheduler.Listing.{Listing}
use chronos_job_scheduler.Jobs.Reads.{JobQuery, JobSummary, list_jobs}
use chronos_job_scheduler.WebPages.JobList.{JobsPage}

-- A page number below 1 is never asked for.
abbrev IsPaged : JobsPage → Type 0
IsPaged p = 1 ≤ p.page

-- What GET /jobs answers to the user; a failed call throws in the page. `tie` is how the database ranks jobs that
-- the order of the listing leaves open, for each query.
abbrev pub answer_of : (JobQuery → Job → ℕ) → ℕ → Db → JobQuery → Option (Listing JobSummary)
answer_of tie user db q = elim (list_jobs (tie q) user q db) [ err e ↦ none | ok l ↦ some l ]
