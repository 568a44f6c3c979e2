-- ===== src/Jobs/Keys.antt =====
-- api/src/routes/jobs.ts: the idempotency key of a submission.
use chronos_job_scheduler.Prelude.{
  Bool, ==_self, find_unique-key, ℕ, ◌≡◌, refl, String, str_eq, eq_iff, Option, none, some, List,
  [], ◌∷◌, ◌++◌, true, false, ◌&&◌, ◌==◌, arith, find_unique,
}
use chronos_job_scheduler.Schema.{scheduled_job_created, Db, Job, Queue}
use chronos_job_scheduler.Schema.JsonValue.{Json}
use chronos_job_scheduler.Errors.{ok, err, chronos_error, conflict}
use chronos_job_scheduler.Jobs.{
  cron_definition, is_valid_cron, create_scheduled, has_key, same_key, key_taken, one_shot,
  create_by_kind, create_job, Written, announce,
}
use chronos_job_scheduler.Jobs.Body.{CreateJob, is_valid_create}
use chronos_job_scheduler.Jobs.Submission.{create_job-ok}

key_taken-append :
    (queue_id : ℕ) (key : Option String) (jobs : List Job) (job : Job)
    → (job.queue_id == queue_id && same_key key job.idempotency_key) ≡ true
    → key_taken queue_id key (jobs ++ job ∷ []) ≡ true
key_taken-append queue_id key [] job h = ground arith
key_taken-append queue_id key (j ∷ jobs) job h =
    ground (arith, key_taken-append queue_id key jobs job h)

same_key_self : (key : Option String) → has_key key ≡ true → same_key key key ≡ true
same_key_self none h = cc
same_key_self (some k) h = (eq_iff k k).1 refl

-- A valid submission whose key a job of the queue has already is refused as a conflict.
pub create_job_taken :
    (up : Bool) (template : CreateJob → Json) (now id queue_id : ℕ) (body : CreateJob) (db : Db)
    {queue : Queue}
    → find_unique (λ (q : Queue). q.id) queue_id db.queues ≡ some queue
    → is_valid_create body ≡ true
    → has_key body.idempotency_key ≡ true
    → key_taken queue_id body.idempotency_key db.jobs ≡ true
    → create_job up template now id queue_id body db ≡ err (chronos_error conflict)
unfolding create_job
create_job_taken up template now id queue_id body db found valid keyed taken = ground arith

-- Once a one-shot job with a non-empty key was created, published or not, a later valid submission to the
-- queue under that key, whatever else it asks for, is refused as a conflict.
pub create_job-create_job :
    (up up' : Bool) (template : CreateJob → Json) (now later id id' queue_id : ℕ)
    (body again : CreateJob) (db : Db) {queue : Queue} {w : Written}
    → find_unique (λ (q : Queue). q.id) queue_id db.queues ≡ some queue
    → body.cron_expression ≡ none
    → has_key body.idempotency_key ≡ true
    → create_job up template now id queue_id body db ≡ ok w
    → is_valid_create again ≡ true
    → again.idempotency_key ≡ body.idempotency_key
    → create_job up' template later id' queue_id again w.db ≡ err (chronos_error conflict)
create_job-create_job up up' template now later id id' queue_id body again db {queue} found once
      keyed h valid same =
    let (jobs, queues) = create_job-ok up template now id queue_id body db found once h in
    create_job_taken up' template later id' queue_id again _ {queue = queue} (rw queues found) valid
      (rw same keyed)
      (rw (same, jobs)
        (key_taken-append queue_id body.idempotency_key db.jobs (one_shot now id queue body) (
          rw (find_unique-key (λ (q : Queue). q.id) queue_id db.queues found, ==_self queue_id)
            (same_key_self body.idempotency_key keyed))))

-- A valid submission with a cron expression of five fields, at a queue that exists and under no
-- key or one that no job has, succeeds: it adds its definition and leaves the jobs, where keys
-- are looked up, as they are.
pub create_job_cron :
    (up : Bool) (template : CreateJob → Json) (now id queue_id : ℕ) (body : CreateJob) (db : Db)
    {queue : Queue} {cron : String}
    → find_unique (λ (q : Queue). q.id) queue_id db.queues ≡ some queue
    → is_valid_create body ≡ true
    → (has_key body.idempotency_key && key_taken queue_id body.idempotency_key db.jobs) ≡ false
    → body.cron_expression ≡ some cron
    → str_eq cron "" ≡ false
    → is_valid_cron cron ≡ true
    → (w : Written) × (create_job up template now id queue_id body db ≡ ok w)
      × (w.db.jobs ≡ db.jobs)
      × (w.db.queues ≡ db.queues)
      × (w.db.scheduled_jobs
          ≡ db.scheduled_jobs ++ cron_definition (template body) now id queue cron ∷ [])
unfolding create_job create_by_kind create_scheduled
create_job_cron up template now id queue_id body db {queue} {cron} found valid free given nonempty
      five =
    (
      announce up (scheduled_job_created id queue.id) (record db {
        scheduled_jobs =
            db.scheduled_jobs ++ cron_definition (template body) now id queue cron ∷ [];
      }),
      rw (valid, found, free, given, nonempty, five) refl,
      refl,
      refl,
      refl,
    )
