-- ===== src/Jobs/Transitions.antt =====
-- api/src/routes/jobs.ts: retrying a job by hand and cancelling it.
use chronos_job_scheduler.Prelude.{
  Bool, exists-delete_where, ==→eq, ℕ, ◌≡◌, refl, some, List, true, false, ◌==◌, arith,
  if◌then◌else◌, ◌⊎◌, ==→eq, exists_where, delete_where, update_where, Bool-cases, inl, inr,
  find_unique-update_key, ==_self,
}
use chronos_job_scheduler.Schema.{Db, Job, JobStatus, Transition, job_transition}
use chronos_job_scheduler.Errors.{ok, err, chronos_error, validation_error}
use chronos_job_scheduler.Jobs.{is_retryable, is_cancellable, retry, cancel, Written, announce}
use chronos_job_scheduler.Claimer.{is_claimable}
use chronos_job_scheduler.Claimer.Rows.{find_job}

abbrev pub retried : ℕ → Job → Job
retried now j = record j {
  status = JobStatus.queued;
  run_at = now;
  attempt_count = 0;
  updated_at = now;
}

abbrev pub cancelled : ℕ → Job → Job
cancelled now j = record j { status = JobStatus.cancelled; updated_at = now }

find_job-update :
    (now id : ℕ) (f : Job → Job) (j : Job) (jobs : List Job)
    → ((i : Job) → (f i).id ≡ i.id)
    → find_job id jobs ≡ some j
    → (k : ℕ)
    → find_job k (update_where (λ i. i.id == id) f jobs)
      ≡ (if k == id then some (f j) else find_job k jobs)
find_job-update now id f j jobs h found k = elim (Bool-cases (k == id)) [
  | inl e ↦
      rw
        (
          find_unique-update_key (λ (i : Job). i.id) k (λ k. k == id) f jobs h,
          e,
          ==→eq k id e,
          found,
        )
        refl
  | inr e ↦ rw (find_unique-update_key (λ (i : Job). i.id) k (λ k. k == id) f jobs h, e) refl
]

-- A retry by hand of a job that exists succeeds if it has failed, is dead-lettered or was
-- cancelled: the job can then be claimed at once, no dead letter of it is left, and every other
-- job is as it was, also where the event is not published and the request fails for that. Else the retry
-- is refused.
pub retry-cases :
    (up : Bool) (now id : ℕ) (db : Db) {j : Job}
    → find_job id db.jobs ≡ some j
    → ((is_retryable j.status ≡ true)
        × ((w : Written) × (retry up now id db ≡ ok w)
            × (w.is_answered ≡ up)
            × ((k : ℕ)
                → find_job k w.db.jobs
                  ≡ (if k == id then some (retried now j) else find_job k db.jobs))
            × (is_claimable j.queue_id now (retried now j) ≡ true)
            × (exists_where (λ d. d.original_job_id == id) w.db.dead_letters ≡ false)))
      ⊎ ((is_retryable j.status ≡ false)
          × (retry up now id db ≡ err (chronos_error validation_error)))
unfolding retry
retry-cases up now id db {j} found = elim (Bool-cases (is_retryable j.status)) [
  | inl ready ↦ inl (
    ready,
    (
      announce up (job_transition id Transition.queued j.queue_id) (record db {
        dead_letters = delete_where (λ d. d.original_job_id == id) db.dead_letters;
        jobs = update_where (λ j. j.id == id) (retried now) db.jobs;
      }),
      rw (found, ready) refl,
      refl,
      find_job-update now id (retried now) j db.jobs (λ j. refl) found,
      rw (==_self j.queue_id) (ground arith),
      exists-delete_where (λ d. d.original_job_id == id) db.dead_letters,
    ),
  )
  | inr refused ↦ inr (refused, rw (found, refused) refl)
]

-- Cancelling a job that exists succeeds if it is queued or scheduled: the job can never be
-- claimed then, and every other job is as it was, also where the event is not published and the request
-- fails for that. Else it is refused.
pub cancel-cases :
    (up : Bool) (now id : ℕ) (db : Db) {j : Job}
    → find_job id db.jobs ≡ some j
    → ((is_cancellable j.status ≡ true)
        × ((w : Written) × (cancel up now id db ≡ ok w)
            × (w.is_answered ≡ up)
            × ((k : ℕ)
                → find_job k w.db.jobs
                  ≡ (if k == id then some (cancelled now j) else find_job k db.jobs))
            × ((later : ℕ) → is_claimable j.queue_id later (cancelled now j) ≡ false)))
      ⊎ ((is_cancellable j.status ≡ false)
          × (cancel up now id db ≡ err (chronos_error validation_error)))
unfolding cancel
cancel-cases up now id db {j} found = elim (Bool-cases (is_cancellable j.status)) [
  | inl ready ↦ inl (
    ready,
    (
      announce up (job_transition id Transition.cancelled j.queue_id)
          (record db { jobs = update_where (λ j. j.id == id) (cancelled now) db.jobs }),
      rw (found, ready) refl,
      refl,
      find_job-update now id (cancelled now) j db.jobs (λ j. refl) found,
      λ later. ground arith,
    ),
  )
  | inr refused ↦ inr (refused, rw (found, refused) refl)
]
