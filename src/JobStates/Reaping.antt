-- ===== src/JobStates/Reaping.antt =====
-- worker/src/heartbeat.ts against the state machine of jobs.
use chronos_job_scheduler.Prelude.{
  or_false, [], ◌∷◌, All, both, String, String, String, ℕ, ◌≡◌, refl, ◌∙◌, true, Bool-cases, some,
  List, ◌==◌, ==→eq, inl, inr,
}
use chronos_job_scheduler.Schema.{is_running, same_status, JobExecution, Db, Job, JobStatus}
use chronos_job_scheduler.Executor.Rows.{find_job}
use chronos_job_scheduler.Reaper.{reap, runs_job}
use chronos_job_scheduler.Reaper.Unseen.{is_executing, reap_unseen}
use chronos_job_scheduler.Reaper.Kept.{IsKept, reap-IsKept}
use chronos_job_scheduler.JobStates.{
  IsMoved, single, Bool, ◌∷◌, is_accounted, Accounted, Actor, Move, rests,
}

pub accounted-running :
    (k : ℕ) (jobs : List Job) (es : List JobExecution)
    → All (λ e. is_accounted jobs e ≡ true) es
    → is_executing k es ≡ true
    → or_false (λ (j : Job). same_status JobStatus.running j.status) (find_job k jobs) ≡ true
accounted-running k jobs [] h executing = cc
accounted-running k jobs (e ∷ es) h executing = elim (Bool-cases (runs_job k e)) [
  | inr other ↦ accounted-running k jobs es h.1 (rw other at executing)
  | inl here ↦
      let (own, opened) = both (e.job_id == k) (is_running e.status) here in
      rw (opened, ==→eq e.job_id k own) at h.0
]

pub same_status-running :
    (s : JobStatus) → same_status JobStatus.running s ≡ true → s ≡ JobStatus.running
same_status-running JobStatus.running h = refl
same_status-running _ h = cc

kept-IsMoved :
    (k : ℕ) (db : Db) {s : JobStatus}
    → s ≡ JobStatus.running
    → IsKept s k db
    → IsMoved Actor.reaper s k db
kept-IsMoved k db {s} running (i, found, inl same) = (i, found, rw same rests)
kept-IsMoved k db {s} running (i, found, inr queued) =
    (i, found, rw (running, queued) (single Move.requeues))

pub reap-IsMoved :
    (m : ℕ → String) (up : Bool) (ttl now k : ℕ) (db : Db) {j : Job}
    → Accounted db
    → find_job k db.jobs ≡ some j
    → IsMoved Actor.reaper j.status k (reap m up ttl now db)
reap-IsMoved m up ttl now k db {j} ready found = elim (Bool-cases (is_executing k db.executions)) [
  | inr idle ↦ (j, reap_unseen m up ttl now k db idle ∙ found, rests)
  | inl executing ↦
      kept-IsMoved k (reap m up ttl now db)
        (same_status-running j.status
          (rw found at (accounted-running k db.jobs db.executions ready executing)))
        (reap-IsKept m up ttl now k db found)
]
