-- ===== src/JobStates/Stranded.antt =====
-- worker/src/poller.ts, worker/src/claimer.ts and worker/src/heartbeat.ts: a job that a worker has claimed and not
-- started.
use chronos_job_scheduler.Prelude.{
  ℕ, ◌≡◌, ap, ◌∙◌, Bool, true, false, Bool-cases, some, List, [], ◌∷◌, All, inl, inr, includes,
  Distinct,
}
use chronos_job_scheduler.Schema.{Db, Job, JobStatus, Queue}
use chronos_job_scheduler.Claimer.{claim_jobs}
use chronos_job_scheduler.Claimer.Rows.{ids_of, find_job}
use chronos_job_scheduler.Claimer.Effects.{claim_jobs-claimed, claim_jobs_others, claim_jobs-Marked}
use chronos_job_scheduler.Reaper.Unseen.{is_executing, IsUnseen, reap-IsUnseen}
use chronos_job_scheduler.Poller.{Turn, Process, settle_all, claim_for, poll_queue, poll_queues}
use chronos_job_scheduler.Poller.Launches.{poll_queue_stranded, poll_queues_stopped}
use chronos_job_scheduler.JobStates.{Operation, operate, operate_all}
use chronos_job_scheduler.JobStates.Histories.{operate-ids}
use chronos_job_scheduler.JobStates.Refinement.{claimable-queued}

-- What the workers do by themselves: claims and reaper cycles.
abbrev pub is_upkeep : Operation → Bool
is_upkeep (Operation.claiming locked queue_id limit now) = true
is_upkeep (Operation.reaping message up ttl now) = true
is_upkeep o = false

claim_jobs-IsUnseen :
    (locked : List ℕ) (queue_id limit now k : ℕ) (db : Db) {j : Job}
    → Distinct (ids_of db.jobs)
    → j.status ≡ JobStatus.claimed
    → IsUnseen k (some j) db
    → IsUnseen k (some j) (claim_jobs false locked queue_id limit now db).1
claim_jobs-IsUnseen locked queue_id limit now k db {j} distinct claimed (found, idle) = (
  elim (Bool-cases (includes k (claim_jobs false locked queue_id limit now db).0)) [
    | inr missed ↦ claim_jobs_others locked queue_id limit now db distinct k missed ∙ found
    | inl taken ↦
        let (i, found', free, row) =
          claim_jobs-claimed locked queue_id limit now db distinct k taken in
        let same : i ≡ j = cc in
        let no = rw (same, claimed) at (claimable-queued queue_id now i free.0) in cc
  ],
  ap (λ (d : Db). is_executing k d.executions) (claim_jobs-Marked locked queue_id limit now db).1
      ∙ idle,
)

operate_all-IsUnseen :
    (os : List Operation) (k : ℕ) (db : Db) {j : Job}
    → All (λ o. is_upkeep o ≡ true) os
    → Distinct (ids_of db.jobs)
    → j.status ≡ JobStatus.claimed
    → IsUnseen k (some j) db
    → IsUnseen k (some j) (operate_all os db)
unfolding operate_all operate
operate_all-IsUnseen [] k db only distinct claimed h = h
operate_all-IsUnseen (Operation.claiming locked queue_id limit now ∷ os) k db (own, only) distinct
      claimed h =
    operate_all-IsUnseen os k _ only
      (rw (operate-ids (Operation.claiming locked queue_id limit now) db) distinct) claimed
      (claim_jobs-IsUnseen locked queue_id limit now k db distinct claimed h)
operate_all-IsUnseen (Operation.reaping message up ttl now ∷ os) k db (own, only) distinct claimed
      h =
    operate_all-IsUnseen os k _ only
      (rw (operate-ids (Operation.reaping message up ttl now) db) distinct) claimed
      (reap-IsUnseen message up ttl now k db h)
operate_all-IsUnseen (o ∷ os) k db (own, only) distinct claimed h = cc

-- A stop arrives during a claim that commits, on a table with unique identifiers, and the claim takes a job
-- that had no open execution. Then the rest of the cycle, whatever queues it still had, starts no job: those
-- in flight are the ones that had not settled. And whatever claims that commit and reaper cycles follow, of
-- this worker or of others, the job stays `claimed`, and without an open execution.
pub poll_queues_stranded :
    (t : Turn) (q : Queue) (qs : List (Turn × Queue)) (p : Process) (db : Db) (k : ℕ)
    (later : List Operation)
    → p.stopping ≡ false
    → t.count_fails ≡ false
    → t.rolled_back ≡ false
    → t.stop_requested ≡ true
    → Distinct (ids_of (t.meanwhile db).jobs)
    → includes k (claim_for t q db).0 ≡ true
    → is_executing k (t.meanwhile db).executions ≡ false
    → All (λ o. is_upkeep o ≡ true) later
    → let (p', db') = poll_queues ((t, q) ∷ qs) (p, db) in
      (p'.in_flight ≡ (settle_all t.settled p).in_flight)
      × (is_executing k (operate_all later db').executions ≡ false)
      × ((j : Job) × (find_job k (operate_all later db').jobs ≡ some j)
          × (j.status ≡ JobStatus.claimed))
poll_queues_stranded t q qs p db k later runs counted committed stop distinct taken idle only =
    let cycle = poll_queues_stopped t q qs p db runs stop in
    let (left, ids, executions, (j, found, claimed)) =
      poll_queue_stranded t q p db k counted committed stop distinct taken in
    let db' = (poll_queue t q (p, db)).1 in
    let kept =
      operate_all-IsUnseen later k db' only (rw ids distinct) claimed
        (found, ap (is_executing k) executions ∙ idle) in
    rw cycle (left, kept.1, (j, kept.0, claimed))
