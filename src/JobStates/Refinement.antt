-- ===== src/JobStates/Refinement.antt =====
-- worker/src/claimer.ts, worker/src/executor.ts, worker/src/heartbeat.ts and api/src/routes/jobs.ts
-- against the state machine of jobs.
use chronos_job_scheduler.Prelude.{
  Bool, ℕ, ◌≡◌, refl, ◌∙◌, true, false, Bool-cases, some, Option-cases, List, ◌==◌, ==→eq, arith,
  includes, Distinct, inl, inr,
}
use chronos_job_scheduler.Schema.{Db, Job, JobStatus, is_queued}
use chronos_job_scheduler.Claimer.{claim_jobs, is_claimable}
use chronos_job_scheduler.Claimer.Rows.{ids_of}
use chronos_job_scheduler.Claimer.Effects.{claim_jobs-claimed, claim_jobs_others, claimed_at}
use chronos_job_scheduler.Executor.Rows.{find_job}
use chronos_job_scheduler.Jobs.{retry, cancel, is_retryable, is_cancellable}
use chronos_job_scheduler.Jobs.Transitions.{retry-cases, cancel-cases, retried, cancelled}
use chronos_job_scheduler.JobStates.{
  IsMoved, single, Actor, actor_of, Move, Moves, rests, Operation, operate, IsReady, Accounted,
  or_same,
}
use chronos_job_scheduler.JobStates.Runs.{execute_job-IsMoved}
use chronos_job_scheduler.JobStates.Reaping.{reap-IsMoved}

revives : (s : JobStatus) → is_retryable s ≡ true → Moves Actor.client s JobStatus.queued
revives JobStatus.failed h = single Move.revives_failed
revives JobStatus.dead_letter h = single Move.revives_dead
revives JobStatus.cancelled h = single Move.revives_cancelled
revives _ h = cc

cancels : (s : JobStatus) → is_cancellable s ≡ true → Moves Actor.client s JobStatus.cancelled
cancels JobStatus.queued h = single Move.cancels_queued
cancels JobStatus.scheduled h = single Move.cancels_scheduled
cancels _ h = cc

retry-IsMoved :
    (up : Bool) (now id k : ℕ) (db : Db) {j : Job}
    → find_job k db.jobs ≡ some j
    → IsMoved Actor.client j.status k (or_same db (retry up now id db))
unfolding retry
retry-IsMoved up now id k db {j} found = elim (Option-cases (find_job id db.jobs)) [
  | inl missing ↦ rw (retry, missing) (j, found, rests)
  | inr (i, present) ↦ elim (retry-cases up now id db present) [
    | inr (kept, refused) ↦ rw refused (j, found, rests)
    | inl (may, (w, done, answered, rows, claimable, letters)) ↦
        rw done (elim (Bool-cases (k == id)) [
          | inl here ↦
              let same : i ≡ j = let at = ==→eq k id here in cc in
              (retried now i, rows k ∙ rw here refl, revives j.status (rw same at may))
          | inr other ↦ (j, rows k ∙ rw (other, found) refl, rests)
        ])
  ]
]

cancel-IsMoved :
    (up : Bool) (now id k : ℕ) (db : Db) {j : Job}
    → find_job k db.jobs ≡ some j
    → IsMoved Actor.client j.status k (or_same db (cancel up now id db))
unfolding cancel
cancel-IsMoved up now id k db {j} found = elim (Option-cases (find_job id db.jobs)) [
  | inl missing ↦ rw (cancel, missing) (j, found, rests)
  | inr (i, present) ↦ elim (cancel-cases up now id db present) [
    | inr (kept, refused) ↦ rw refused (j, found, rests)
    | inl (may, (w, done, answered, rows, never)) ↦ rw done (elim (Bool-cases (k == id)) [
      | inl here ↦
          let same : i ≡ j = let at = ==→eq k id here in cc in
          (cancelled now i, rows k ∙ rw here refl, cancels j.status (rw same at may))
      | inr other ↦ (j, rows k ∙ rw (other, found) refl, rests)
    ])
  ]
]

is_queued-eq : (s : JobStatus) → is_queued s ≡ true → s ≡ JobStatus.queued
is_queued-eq JobStatus.queued h = refl
is_queued-eq _ h = cc

pub claimable-queued :
    (queue_id now : ℕ) (j : Job) → is_claimable queue_id now j ≡ true → j.status ≡ JobStatus.queued
claimable-queued queue_id now j h =
    is_queued-eq j.status (ground (arith, h, Bool-cases (is_queued j.status)))

claim_jobs-IsMoved :
    (locked : List ℕ) (queue_id limit now k : ℕ) (db : Db) {j : Job}
    → Distinct (ids_of db.jobs)
    → find_job k db.jobs ≡ some j
    → IsMoved Actor.claimer j.status k (claim_jobs false locked queue_id limit now db).1
claim_jobs-IsMoved locked queue_id limit now k db {j} distinct found =
    elim (Bool-cases (includes k (claim_jobs false locked queue_id limit now db).0)) [
      | inl taken ↦
          let (i, found', free, row) =
            claim_jobs-claimed locked queue_id limit now db distinct k taken in
          let same : i ≡ j = cc in
          let queued : j.status ≡ JobStatus.queued =
            rw same at (claimable-queued queue_id now i free.0) in
          (claimed_at now i, row, rw queued (single Move.claims))
      | inr missed ↦
          (j, claim_jobs_others locked queue_id limit now db distinct k missed ∙ found, rests)
    ]

-- On jobs with distinct identifiers, where every open execution belongs to a running job: an operation
-- that is ready keeps every job, and changes its status, if at all, by moves of its actor.
pub operate-Moves :
    (operation : Operation) (k : ℕ) (db : Db) {j : Job}
    → Distinct (ids_of db.jobs)
    → Accounted db
    → IsReady operation db
    → find_job k db.jobs ≡ some j
    → IsMoved (actor_of operation) j.status k (operate operation db)
unfolding operate IsReady
operate-Moves (Operation.claiming locked queue_id limit now) k db distinct accounted ready found =
    claim_jobs-IsMoved locked queue_id limit now k db distinct found
operate-Moves (Operation.executing handle s id worker) k db distinct accounted ready found =
    execute_job-IsMoved handle s id worker k db found ready.0
operate-Moves (Operation.reaping message up ttl now) k db distinct accounted ready found =
    reap-IsMoved message up ttl now k db accounted found
operate-Moves (Operation.retrying up now id) k db distinct accounted ready found =
    retry-IsMoved up now id k db found
operate-Moves (Operation.cancelling up now id) k db distinct accounted ready found =
    cancel-IsMoved up now id k db found
