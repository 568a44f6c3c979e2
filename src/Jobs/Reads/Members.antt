-- ===== src/Jobs/Reads/Members.antt =====
-- api/src/routes/jobs.ts: a job, its executions and its logs are shown to members of its organization.
use chronos_job_scheduler.Prelude.{ℕ, ◌≡◌, refl, Option, some, Option-cases, List, inl, inr}
use chronos_job_scheduler.Schema.{Db, Job, JobLog, JobExecution, member}
use chronos_job_scheduler.Errors.{Result, ok, err, ◌>>=◌, Result-cases, chronos_error, not_found}
use chronos_job_scheduler.Rbac.{find_job, org_of_job}
use chronos_job_scheduler.Rbac.Roles.{HasRole}
use chronos_job_scheduler.Scope.{require_membership}
use chronos_job_scheduler.Scope.Members.{require_membership-HasRole}
use chronos_job_scheduler.Jobs.Reads.{
  JobLog, ExecutionDetail, Listing, Listing, JobDetail, find_visible, get_job, list_executions,
  list_logs,
}

module _ (user id : ℕ) (db : Db) where
  find_visible-HasRole :
      {j : Job}
      → find_visible user id db ≡ ok j
      → HasRole db user member (org_of_job db (find_job id db))
  unfolding find_visible
  find_visible-HasRole h = elim (Option-cases (find_job id db)) [
    | inl missing ↦
        let refused : find_visible user id db ≡ err (chronos_error not_found) = rw missing refl in
        cc
    | inr (j, found) ↦ elim (Result-cases (require_membership user (org_of_job db (some j)) db)) [
      | inl (m, belongs) ↦
          rw found (require_membership-HasRole user (org_of_job db (some j)) db belongs)
      | inr (e, stranger) ↦
          let refused : find_visible user id db ≡ err e = rw (found, stranger) refl in cc
    ]
  ]

  -- A handler that begins by looking for the job, and has an answer.
  after_find_visible {κ} :
      {A : Type κ} (answer : Job → Result A) {a : A}
      → (find_visible user id db >>= answer) ≡ ok a
      → HasRole db user member (org_of_job db (find_job id db))
  after_find_visible answer {a} h = elim (Result-cases (find_visible user id db)) [
    | inl (j, found) ↦ find_visible-HasRole found
    | inr (e, refused) ↦
        let failed : (find_visible user id db >>= answer) ≡ err e = rw refused refl in cc
  ]

  pub get_job-HasRole :
      {detail : JobDetail}
      → get_job user id db ≡ ok detail
      → HasRole db user member (org_of_job db (find_job id db))
  unfolding get_job
  get_job-HasRole h = after_find_visible _ h

  pub list_executions-HasRole :
      (page limit : Option (List ℕ)) {listing : Listing ExecutionDetail}
      → list_executions user id page limit db ≡ ok listing
      → HasRole db user member (org_of_job db (find_job id db))
  unfolding list_executions
  list_executions-HasRole page limit h = after_find_visible _ h

  pub list_logs-HasRole :
      (page limit : Option (List ℕ)) {listing : Listing (JobLog × Option JobExecution)}
      → list_logs user id page limit db ≡ ok listing
      → HasRole db user member (org_of_job db (find_job id db))
  unfolding list_logs
  list_logs-HasRole page limit h = after_find_visible _ h
