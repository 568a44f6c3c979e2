-- ===== src/Reaper/Kept.antt =====
-- worker/src/heartbeat.ts: what a reaper cycle may do to the row of a job.
use chronos_job_scheduler.Prelude.{
  ℕ, String, ◌≡◌, refl, ◌⊎◌, inl, inr, ◌∙◌, Bool, Bool-cases, some, Option-cases, ◌==◌,
  find_unique-update_key,
}
use chronos_job_scheduler.Schema.{Db, Job, JobStatus}
use chronos_job_scheduler.Reaper.{requeued, requeue_job, mark_dead, reap}
use chronos_job_scheduler.Reaper.Steps.{reap-keeps}
use chronos_job_scheduler.Reaper.Unseen.{find_job, requeue_job_others}

-- The job is there, with the status or queued.
abbrev pub IsKept : JobStatus → ℕ → Db → Type 0
IsKept status k db =
    (i : Job) × (find_job k db.jobs ≡ some i)
    × ((i.status ≡ status) ⊎ (i.status ≡ JobStatus.queued))

module _ (m : ℕ → String) (up : Bool) (now k : ℕ) (status : JobStatus) where
  requeue_job-IsKept :
      (worker id : ℕ) (db : Db)
      → IsKept status k db
      → IsKept status k (requeue_job m up worker now db id)
  unfolding requeue_job
  requeue_job-IsKept worker id db (i, found, kept) = elim (Bool-cases (k == id)) [
    | inr other ↦ (i, requeue_job_others m up worker now k db id other ∙ found, kept)
    | inl here ↦ elim (Option-cases (find_job id db.jobs)) [
      | inl missing ↦ rw (requeue_job, missing) (i, found, kept)
      | inr (j, present) ↦
          rw (requeue_job, present)
            (
              requeued now i,
              find_unique-update_key (λ (j : Job). j.id) k (λ n. n == id) (requeued now) db.jobs
                    (λ j. refl)
                  ∙ rw (here, found) refl,
              inr refl,
            )
    ]
  ]

-- A reaper cycle keeps every job, and leaves its status or makes it queued.
pub reap-IsKept :
    (m : ℕ → String) (up : Bool) (ttl now k : ℕ) (db : Db) {j : Job}
    → find_job k db.jobs ≡ some j
    → IsKept j.status k (reap m up ttl now db)
unfolding mark_dead
reap-IsKept m up ttl now k db {j} found =
    reap-keeps (IsKept j.status k) m up now (λ worker db h. h)
      (requeue_job-IsKept m up now k j.status) ttl db (j, found, inl refl)
