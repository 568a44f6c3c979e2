-- ===== src/Jobs/Batches.antt =====
-- api/src/routes/jobs.ts: the submission of a batch.
use chronos_job_scheduler.Prelude.{
  Bool, ℕ, ◌≡◌, ◌∙◌, some, List, [], ◌∷◌, ◌++◌, map, not, arith, append-nil, append_assoc,
  find_unique, Bool-cases, inl, inr,
}
use chronos_job_scheduler.Schema.{Db, Job, Queue}
use chronos_job_scheduler.Errors.{Result-cases, ok}
use chronos_job_scheduler.Jobs.{
  key_taken, keys_conflict, insert_job, insert_jobs, batch_row, create_batch, Written,
}
use chronos_job_scheduler.Jobs.Body.{BatchJob, is_valid_batch}

insert_jobs-ok :
    (jobs : List Job) (db : Db) {db' : Db}
    → insert_jobs jobs db ≡ ok db'
    → db'.jobs ≡ db.jobs ++ jobs
unfolding insert_jobs insert_job
insert_jobs-ok [] db {db'} h = ground (arith, append-nil db.jobs)
insert_jobs-ok (job ∷ jobs) db {db'} h =
    elim (Bool-cases (key_taken job.queue_id job.idempotency_key db.jobs)) [
      | inl taken ↦ ground arith
      | inr free ↦
          let inserted = record db { jobs = db.jobs ++ job ∷ [] } in
          let rest : insert_jobs jobs inserted ≡ ok db' = ground arith in
          insert_jobs-ok jobs inserted rest ∙ append_assoc db.jobs (job ∷ []) jobs
    ]

-- A batch that succeeds, at a queue that exists, adds the rows of all its items, in their order, behind the
-- others.
pub create_batch-ok :
    (up : Bool) (now batch_id queue_id : ℕ) (items : List (ℕ × BatchJob)) (db : Db) {queue : Queue}
    {w : Written}
    → find_unique (λ (q : Queue). q.id) queue_id db.queues ≡ some queue
    → create_batch up now batch_id queue_id items db ≡ ok w
    → w.db.jobs ≡ db.jobs ++ map (batch_row now batch_id queue) items
unfolding create_batch
create_batch-ok up now batch_id queue_id items db {queue} {w} found h =
    let valid = Bool-cases (is_valid_batch (map (λ (item : ℕ × BatchJob). item.1) items)) in
    let free = Bool-cases (not (keys_conflict queue_id items db.jobs)) in
    let rows = map (batch_row now batch_id queue) items in
    elim (Result-cases (insert_jobs rows db)) [
      | inl (inserted, stored) ↦
          let kept : w.db.jobs ≡ inserted.jobs = ground (arith, valid, free) in
          kept ∙ insert_jobs-ok rows db stored
      | inr (e, thrown) ↦ ground (arith, valid, free)
    ]
