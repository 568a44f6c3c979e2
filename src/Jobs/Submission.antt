-- ===== src/Jobs/Submission.antt =====
-- api/src/routes/jobs.ts against worker/src/claimer.ts: what becomes of a submitted one-shot job.
use chronos_job_scheduler.Prelude.{
  Bool, ℕ, ◌≤◌, ◌≡◌, ◌∙◌, none, some, List, [], ◌∷◌, ◌++◌, false, ◌&&◌, not, arith, leb,
  find_unique, Distinct, includes, Bool-cases, inl, inr,
}
use chronos_job_scheduler.Schema.{Db, Job, JobStatus, Queue}
use chronos_job_scheduler.Schema.JsonValue.{Json}
use chronos_job_scheduler.Errors.{ok}
use chronos_job_scheduler.Jobs.{
  has_key, key_taken, insert_job, one_shot, create_one_shot, create_by_kind, create_job, is_policy,
  Written,
}
use chronos_job_scheduler.Jobs.Body.{CreateJob, is_valid_create, or_now}
use chronos_job_scheduler.Claimer.{is_claimable, claim_jobs}
use chronos_job_scheduler.Claimer.Rows.{ids_of, find_job}
use chronos_job_scheduler.Claimer.Effects.{claim_jobs-claimed, claim_jobs_others}

pub create_one_shot-ok :
    (up : Bool) (now id : ℕ) (queue : Queue) (body : CreateJob) (db : Db) {w : Written}
    → create_one_shot up now id queue body db ≡ ok w
    → (w.db.jobs ≡ db.jobs ++ one_shot now id queue body ∷ []) × (w.db.queues ≡ db.queues)
unfolding create_one_shot insert_job
create_one_shot-ok up now id queue body db h =
    ground
      (arith, Bool-cases (is_policy (one_shot now id queue body).retry_policy_id db.retry_policies))

-- A submission without a cron expression that succeeds, at a queue that exists, adds one job
-- behind the others and keeps the queues.
pub create_job-ok :
    (up : Bool) (template : CreateJob → Json) (now id queue_id : ℕ) (body : CreateJob) (db : Db)
    {queue : Queue} {w : Written}
    → find_unique (λ (q : Queue). q.id) queue_id db.queues ≡ some queue
    → body.cron_expression ≡ none
    → create_job up template now id queue_id body db ≡ ok w
    → (w.db.jobs ≡ db.jobs ++ one_shot now id queue body ∷ []) × (w.db.queues ≡ db.queues)
unfolding create_job create_by_kind
create_job-ok up template now id queue_id body db {queue} {w} found once h =
    let valid = Bool-cases (is_valid_create body) in
    let free =
      Bool-cases
        (not (has_key body.idempotency_key && key_taken queue_id body.idempotency_key db.jobs)) in
    let placed : create_by_kind up template now id queue body db ≡ ok w =
      ground (arith, valid, free) in
    create_one_shot-ok up now id queue body db (rw once at placed)

-- At any time from its `runAt` on, the row that a one-shot submission creates can be claimed as
-- it stands exactly if its `runAt` was no later than the submission.
pub one_shot-is_claimable :
    (now later id : ℕ) (queue : Queue) (body : CreateJob)
    → or_now now body.run_at ≤ later
    → is_claimable queue.id later (one_shot now id queue body) ≡ leb (or_now now body.run_at) now
one_shot-is_claimable now later id queue body due = ground arith

not_taken :
    (locked : List ℕ) (queue_id limit now k : ℕ) (db : Db) {j : Job}
    → Distinct (ids_of db.jobs)
    → find_job k db.jobs ≡ some j
    → j.status ≡ JobStatus.scheduled
    → includes k (claim_jobs false locked queue_id limit now db).0 ≡ false
not_taken locked queue_id limit now k db {j} distinct found status =
    elim (Bool-cases (includes k (claim_jobs false locked queue_id limit now db).0)) [
      | inl taken ↦
          let (i, found', free, _) =
            claim_jobs-claimed locked queue_id limit now db distinct k taken in
          let same : i ≡ j = cc in ground arith
      | inr missed ↦ missed
    ]

-- On a table with unique identifiers, no claim that commits takes or changes a `scheduled` row,
-- whatever the time, the queue and the limit.
pub claim_jobs_scheduled :
    (locked : List ℕ) (queue_id limit now k : ℕ) (db : Db) {j : Job}
    → Distinct (ids_of db.jobs)
    → find_job k db.jobs ≡ some j
    → j.status ≡ JobStatus.scheduled
    → let (ids, db') = claim_jobs false locked queue_id limit now db in
      (includes k ids ≡ false) × (find_job k db'.jobs ≡ some j)
claim_jobs_scheduled locked queue_id limit now k db {j} distinct found status =
    let missed = not_taken locked queue_id limit now k db distinct found status in
    (missed, claim_jobs_others locked queue_id limit now db distinct k missed ∙ found)
