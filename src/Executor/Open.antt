-- ===== src/Executor/Open.antt =====
-- worker/src/executor.ts: a job without an open execution, after a run of any job.
use chronos_job_scheduler.Prelude.{
  ℕ, ◌≡◌, refl, ap, ◌∙◌, false, some, ◌==◌, inl, inr, ◌⊎◌, Bool-cases, ==→eq, ◌∷◌, ==_self, arith,
}
use chronos_job_scheduler.Schema.{Db, Job, JobExecution}
use chronos_job_scheduler.Executor.{
  Surroundings, Outcome, job_not_found, job_completed, job_dead_lettered, job_retrying, rejected,
  start_execution,
}
use chronos_job_scheduler.Executor.Rows.{find_job, started, find_job-start_execution}
use chronos_job_scheduler.Executor.Ledger.{Records, IsOver}
use chronos_job_scheduler.Reaper.Runs.{IsIdleOrRunning}
use chronos_job_scheduler.Reaper.Unseen.{is_executing}

Records-cases :
    (s : Surroundings) (job : Job) (worker : ℕ) (db : Db) (r : Outcome × Db)
    → Records s job worker db r
    → (r.1 ≡ start_execution s job worker db)
      ⊎ ((e : JobExecution) × (r.1.executions ≡ e ∷ db.executions) × IsOver s job worker e)
Records-cases s job worker db (rejected error, db') h = inl h
Records-cases s job worker db (job_not_found, db') h = inr h
Records-cases s job worker db (job_completed, db') h = inr h
Records-cases s job worker db (job_dead_lettered, db') h = inr h
Records-cases s job worker db (job_retrying delay_ms, db') h = inr h

-- The row that the start opens is this job's.
start_execution-idle :
    (s : Surroundings) (job : Job) (worker k : ℕ) (db : Db)
    → (job.id == k) ≡ false
    → is_executing k db.executions ≡ false
    → is_executing k (start_execution s job worker db).executions ≡ false
unfolding start_execution
start_execution-idle s job worker k db other idle = rw (other, idle) refl

start_execution-IsIdleOrRunning :
    (s : Surroundings) (job : Job) (worker k : ℕ) (db : Db)
    → find_job job.id db.jobs ≡ some job
    → is_executing k db.executions ≡ false
    → IsIdleOrRunning k (start_execution s job worker db)
start_execution-IsIdleOrRunning s job worker k db found idle = elim (Bool-cases (job.id == k)) [
  | inr other ↦ inl (start_execution-idle s job worker k db other idle)
  | inl here ↦ rw (← ==→eq job.id k here) (
      inr (
        started s job,
        find_job-start_execution s job job.id db worker ∙ rw (==_self job.id, found) refl,
        refl,
      ))
]

pub recorded-IsIdleOrRunning :
    (s : Surroundings) (job : Job) (worker k : ℕ) (db : Db) (r : Outcome × Db)
    → Records s job worker db r
    → find_job job.id db.jobs ≡ some job
    → is_executing k db.executions ≡ false
    → IsIdleOrRunning k r.1
recorded-IsIdleOrRunning s job worker k db r h found idle =
    elim (Records-cases s job worker db r h) [
      | inl thrown ↦ rw thrown (start_execution-IsIdleOrRunning s job worker k db found idle)
      | inr (e, rows, (own, of, by, nth, over, ended, rest)) ↦
          inl (ap (is_executing k) rows ∙ ground (arith, over, idle, Bool-cases (e.job_id == k)))
    ]
