-- ===== src/WebPages/JobList/Buttons.antt =====
-- web/app/jobs/page.tsx and the routes of api/src/routes/jobs.ts that its buttons call.
use chronos_job_scheduler.Prelude.{
  ℕ, ◌≡◌, refl, sym, ◌∙◌, Bool, true, false, ◌||◌, some, find_unique,
}
use chronos_job_scheduler.Schema.{Db, Job, JobStatus}
use chronos_job_scheduler.Errors.{ok, Thrown, guard, ◌>>◌}
use chronos_job_scheduler.Scope.Members.{is_ok}
use chronos_job_scheduler.Jobs.{Written, retry, cancel, is_retryable, is_cancellable}
use chronos_job_scheduler.WebPages.JobList.{shows_retry, shows_cancel}

abbrev pub is_cancelled : JobStatus → Bool
is_cancelled JobStatus.cancelled = true
is_cancelled _ = false

shows_retry-is_retryable : (s : JobStatus) → (shows_retry s || is_cancelled s) ≡ is_retryable s
shows_retry-is_retryable JobStatus.failed = refl
shows_retry-is_retryable JobStatus.dead_letter = refl
shows_retry-is_retryable JobStatus.cancelled = refl
shows_retry-is_retryable _ = refl

guarded-is_ok : (b : Bool) (e : Thrown) (w : Written) → is_ok (guard b e >> ok w) ≡ b
guarded-is_ok true e w = refl
guarded-is_ok false e w = refl

-- For a job that is as it is shown: the button to cancel it is there exactly if the server would cancel it;
-- the server would retry it exactly if the button to retry it is there or it was cancelled.
pub buttons-routes :
    (up : Bool) (now id : ℕ) (db : Db) {j : Job}
    → find_unique (λ (j : Job). j.id) id db.jobs ≡ some j
    → (is_ok (cancel up now id db) ≡ shows_cancel j.status)
      × (is_ok (retry up now id db) ≡ (shows_retry j.status || is_cancelled j.status))
unfolding cancel retry
buttons-routes up now id db {j} found = (
  rw found (guarded-is_ok (is_cancellable j.status) _ _),
  rw found (guarded-is_ok (is_retryable j.status) _ _ ∙ sym (shows_retry-is_retryable j.status)),
)
