-- ===== src/JobStates/Histories.antt =====
-- worker/src/claimer.ts, worker/src/executor.ts, worker/src/heartbeat.ts and api/src/routes/jobs.ts: any
-- number of operations, one after the other.
use chronos_job_scheduler.Prelude.{ℕ, ◌≡◌, refl, ap, ◌∙◌, some, List, [], ◌∷◌, Distinct}
use chronos_job_scheduler.Schema.{Db, Job}
use chronos_job_scheduler.Claimer.Rows.{ids_of}
use chronos_job_scheduler.Claimer.Effects.{claim_jobs-Marked, ids_of-mark_claimed}
use chronos_job_scheduler.Executor.Rows.{find_job}
use chronos_job_scheduler.Executor.Identifiers.{execute_job-ids}
use chronos_job_scheduler.Reaper.Runs.{IsIdleOrRunning, reap-IsIdleOrRunning, reap-ids}
use chronos_job_scheduler.JobStates.{
  Operation, operate, operate_all, IsReady, AreReady, Accounted, Passes,
}
use chronos_job_scheduler.JobStates.Accounts.{
  idle_or_running, all-Accounted, claim_jobs-IsIdleOrRunning, execute_job-IsIdleOrRunning,
  retry-IsIdleOrRunning, cancel-IsIdleOrRunning, retry-executions, cancel-executions,
}
use chronos_job_scheduler.JobStates.Refinement.{operate-Moves}

pub operate-ids :
    (operation : Operation) (db : Db) → ids_of (operate operation db).jobs ≡ ids_of db.jobs
unfolding operate
operate-ids (Operation.claiming locked queue_id limit now) db =
    ap (λ (d : Db). ids_of d.jobs) (claim_jobs-Marked locked queue_id limit now db).1
    ∙ ids_of-mark_claimed _ now db.jobs
operate-ids (Operation.executing handle s id worker) db = execute_job-ids handle s id worker db
operate-ids (Operation.reaping message up ttl now) db = reap-ids message up ttl now db
operate-ids (Operation.retrying up now id) db = (retry-executions up now id db).1
operate-ids (Operation.cancelling up now id) db = (cancel-executions up now id db).1

operate-IsIdleOrRunning :
    (operation : Operation) (k : ℕ) (db : Db)
    → Distinct (ids_of db.jobs)
    → IsReady operation db
    → IsIdleOrRunning k db
    → IsIdleOrRunning k (operate operation db)
unfolding operate IsReady
operate-IsIdleOrRunning (Operation.claiming locked queue_id limit now) k db distinct ready h =
    claim_jobs-IsIdleOrRunning locked queue_id limit now k db distinct h
operate-IsIdleOrRunning (Operation.executing handle s id worker) k db distinct ready h =
    execute_job-IsIdleOrRunning handle s id worker k db ready.0 ready.1 h
operate-IsIdleOrRunning (Operation.reaping message up ttl now) k db distinct ready h =
    reap-IsIdleOrRunning message up now k ttl db h
operate-IsIdleOrRunning (Operation.retrying up now id) k db distinct ready h =
    retry-IsIdleOrRunning up now id k db h
operate-IsIdleOrRunning (Operation.cancelling up now id) k db distinct ready h =
    cancel-IsIdleOrRunning up now id k db h

operate-Accounted :
    (operation : Operation) (db : Db)
    → Distinct (ids_of db.jobs)
    → IsReady operation db
    → Accounted db
    → Accounted (operate operation db)
operate-Accounted operation db distinct ready accounted =
    all-Accounted (operate operation db)
      λ k. operate-IsIdleOrRunning operation k db distinct ready (idle_or_running k db accounted)

-- Jobs have distinct identifiers, and every open execution belongs to a running job. Then any claims that commit, runs
-- of jobs that are claimed at the time, each with a new execution identifier, reaper cycles, retries and
-- cancellations, one after the other, leave every open execution with a running job, whatever the transactions
-- of the runs throw. Every job is still there, and each of them changes a job's status, if at all, by moves
-- that the state machine allows the claimer, the executor, the reaper and, for the last two, the client.
pub operate_all-Passes :
    (os : List Operation) (k : ℕ) (db : Db) {j : Job}
    → Distinct (ids_of db.jobs)
    → Accounted db
    → AreReady os db
    → find_job k db.jobs ≡ some j
    → Accounted (operate_all os db)
      × ((i : Job) × (find_job k (operate_all os db).jobs ≡ some i) × Passes os j.status i.status)
unfolding operate_all AreReady
operate_all-Passes [] k db {j} distinct accounted ready found = (accounted, (j, found, refl))
operate_all-Passes (o ∷ os) k db {j} distinct accounted (ready, rest) found =
    let db' = operate o db in
    let (t, found', moves) = operate-Moves o k db distinct accounted ready found in
    let distinct' : Distinct (ids_of db'.jobs) = rw (operate-ids o db) distinct in
    let (later, (i, there, passes)) =
      operate_all-Passes os k db' distinct' (operate-Accounted o db distinct ready accounted) rest
        found' in
    (later, (i, there, (t.status, moves, passes)))
