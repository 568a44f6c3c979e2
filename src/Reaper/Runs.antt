-- ===== src/Reaper/Runs.antt =====
-- worker/src/heartbeat.ts: the open executions of jobs through a reaper cycle.
use chronos_job_scheduler.Prelude.{
  ℕ, String, ◌≡◌, refl, ◌∙◌, Bool, false, inl, inr, ◌⊎◌, Bool-cases, Option-cases, some, List, ◌==◌,
  ==→eq, keys, keys-update_where,
}
use chronos_job_scheduler.Schema.{Db, Job, JobStatus}
use chronos_job_scheduler.Reaper.{reap, requeue_job, mark_dead}
use chronos_job_scheduler.Reaper.Steps.{reap-keeps}
use chronos_job_scheduler.Reaper.Unseen.{
  find_job, is_executing, requeue_job_others, requeue_job-is_executing,
}
use chronos_job_scheduler.Reaper.Requeue.{requeue_job-IsRequeued}

-- The job has no open execution, or is running.
abbrev pub IsIdleOrRunning : ℕ → Db → Type 0
IsIdleOrRunning k db =
    (is_executing k db.executions ≡ false)
    ⊎ ((j : Job) × (find_job k db.jobs ≡ some j) × (j.status ≡ JobStatus.running))

module _ (m : ℕ → String) (up : Bool) (now k : ℕ) where
  requeue_job-IsIdleOrRunning :
      (worker id : ℕ) (db : Db)
      → IsIdleOrRunning k db
      → IsIdleOrRunning k (requeue_job m up worker now db id)
  unfolding requeue_job
  requeue_job-IsIdleOrRunning worker id db h = elim (Bool-cases (k == id)) [
    | inr other ↦ elim h [
      | inl idle ↦ inl (requeue_job-is_executing m up worker now k db id idle)
      | inr (j, found, running) ↦
          inr (j, requeue_job_others m up worker now k db id other ∙ found, running)
    ]
    | inl here ↦ elim (Option-cases (find_job id db.jobs)) [
      | inl missing ↦ rw (requeue_job, missing) h
      | inr (j, present) ↦
          rw (==→eq k id here) (inl (requeue_job-IsRequeued m up worker now id j db present).1)
    ]
  ]

  pub reap-IsIdleOrRunning :
      (ttl : ℕ) (db : Db) → IsIdleOrRunning k db → IsIdleOrRunning k (reap m up ttl now db)
  unfolding mark_dead
  reap-IsIdleOrRunning =
      reap-keeps (IsIdleOrRunning k) m up now (λ worker db h. h) requeue_job-IsIdleOrRunning

requeue_job-ids :
    (m : ℕ → String) (up : Bool) (now worker id : ℕ) (db : Db) (ids : List ℕ)
    → keys (λ (j : Job). j.id) db.jobs ≡ ids
    → keys (λ (j : Job). j.id) (requeue_job m up worker now db id).jobs ≡ ids
unfolding requeue_job
requeue_job-ids m up now worker id db ids h = elim (Option-cases (find_job id db.jobs)) [
  | inl missing ↦ rw (requeue_job, missing) h
  | inr (j, found) ↦ rw (requeue_job, found) (keys-update_where _ _ _ db.jobs (λ j. refl) ∙ h)
]

pub reap-ids :
    (m : ℕ → String) (up : Bool) (ttl now : ℕ) (db : Db)
    → keys (λ (j : Job). j.id) (reap m up ttl now db).jobs ≡ keys (λ (j : Job). j.id) db.jobs
unfolding mark_dead
reap-ids m up ttl now db =
    reap-keeps (λ d. keys (λ (j : Job). j.id) d.jobs ≡ keys (λ (j : Job). j.id) db.jobs) m up now
      (λ worker d h. h)
      (λ worker id d. requeue_job-ids m up now worker id d (keys (λ (j : Job). j.id) db.jobs)) ttl
      db refl
