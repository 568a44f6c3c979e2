-- ===== src/Jobs.antt =====
-- api/src/routes/jobs.ts: the handlers that change jobs (submit, batch, retry, cancel), after their
-- preHandlers. A body comes parsed, with `runAt` as a time; the clock and the identifiers of new rows
-- are arguments, and so is whether `redis.publish` goes through. A handler that throws before it has
-- written its rows leaves the database as it was.
pub mod Body
pub mod Publication
pub mod Submission
pub mod Reads
pub mod Keys
pub mod Transitions
pub mod Kept
pub mod Batches
mod Tests
use mathlib.Core.List.{map}
use chronos_job_scheduler.Prelude.{
  ℕ, ◌+◌, String, str_eq, Bool, true, false, not, ◌&&◌, ◌||◌, Option, none, some, List, [], ◌∷◌,
  ◌++◌, ◌==◌, ltb, leb, if◌then◌else◌, find_unique, update_where, exists_where, delete_where,
  length,
}
use chronos_job_scheduler.Schema.{
  Db, Job, JobStatus, Queue, RetryPolicy, ScheduledJob, Transition, job_transition,
  scheduled_job_created, batch_created,
}
use chronos_job_scheduler.Schema.JsonValue.{Json, object, text, number, field, end}
use chronos_job_scheduler.Errors.{
  guard, or_fail, Result, ok, err, ◌>>=◌, ◌>>◌, Thrown, chronos_error, unexpected, unique_violation,
  not_found, conflict, validation_error,
}
pub use Publication.{Written, announce}
use Body.{
  CreateJob, BatchJob, is_valid_create, is_valid_batch, is_valid_cron, next_minute, or_zero,
  or_empty, or_now,
}

-- `if (idempotencyKey)`: neither absent nor the empty text.
abbrev pub has_key : Option String → Bool
has_key none = false
has_key (some k) = not (str_eq k "")

abbrev pub same_key : Option String → Option String → Bool
same_key (some k) (some l) = str_eq k l
same_key _ _ = false

-- A job of this queue with this key: what `findFirst` looks for, and what the unique index on
-- (queue_id, idempotency_key) forbids a second time.
abbrev pub key_taken : ℕ → Option String → List Job → Bool
key_taken queue_id key =
    exists_where (λ j. j.queue_id == queue_id && same_key key j.idempotency_key)

-- `prisma.job.create`
pub insert_job : Job → Db → Result Db
insert_job job db =
    if key_taken job.queue_id job.idempotency_key db.jobs
    then err unique_violation
    else ok (record db { jobs = db.jobs ++ job ∷ [] })

-- `resolvedRunAt > now ? 'scheduled' : 'queued'`
abbrev pub initial_status : ℕ → ℕ → JobStatus
initial_status now run_at = if ltb now run_at then JobStatus.scheduled else JobStatus.queued

abbrev pub or_default : Option ℕ → Option ℕ → Option ℕ
or_default (some id) other = some id
or_default none other = other

abbrev pub one_shot : ℕ → ℕ → Queue → CreateJob → Job
one_shot now id queue body = record {
  id = id;
  queue_id = queue.id;
  type = body.type;
  payload = or_empty body.payload;
  status = initial_status now (or_now now body.run_at);
  priority = or_zero body.priority;
  run_at = or_now now body.run_at;
  batch_id = none;
  attempt_count = 0;
  retry_policy_id = or_default body.retry_policy_id queue.default_retry_policy_id;
  idempotency_key = body.idempotency_key;
  created_at = now;
  updated_at = now;
}

-- `template` is the JSON of `{ type, payload, retryPolicyId, priority }`.
abbrev pub cron_definition : Json → ℕ → ℕ → Queue → String → ScheduledJob
cron_definition template now id queue cron = record {
  id = id;
  project_id = queue.project_id;
  cron_expression = cron;
  queue_id = queue.id;
  job_template = template;
  is_active = true;
  last_run_at = none;
  next_run_at = some (next_minute now);
  created_at = now;
}

-- The cron branch.
pub create_scheduled :
    Bool → (CreateJob → Json) → ℕ → ℕ → Queue → CreateJob → String → Db → Result Written
create_scheduled up template now id queue body cron db = do
  guard (is_valid_cron cron) (chronos_error validation_error)
  ok (
      announce up (scheduled_job_created id queue.id) (record db {
        scheduled_jobs =
            db.scheduled_jobs ++ cron_definition (template body) now id queue cron ∷ [];
      }))

-- What the foreign key of `retry_policy_id` asks for.
abbrev pub is_policy : Option ℕ → List RetryPolicy → Bool
is_policy none policies = true
is_policy (some id) policies = exists_where (λ p. p.id == id) policies

-- The one-shot branch.
pub create_one_shot : Bool → ℕ → ℕ → Queue → CreateJob → Db → Result Written
unfolding insert_job
create_one_shot up now id queue body db = do
  guard (is_policy (one_shot now id queue body).retry_policy_id db.retry_policies) unexpected
  inserted ← insert_job (one_shot now id queue body) db
  ok (
      announce up
        (job_transition id
          (if ltb now (or_now now body.run_at) then Transition.scheduled else Transition.queued)
          queue.id)
        inserted)

-- `if (cronExpression)`
pub create_by_kind : Bool → (CreateJob → Json) → ℕ → ℕ → Queue → CreateJob → Db → Result Written
unfolding create_scheduled create_one_shot
create_by_kind up template now id queue body db = elim body.cron_expression [
  | none ↦ create_one_shot up now id queue body db
  | some cron ↦
      if str_eq cron ""
      then create_one_shot up now id queue body db
      else create_scheduled up template now id queue body cron db
]

-- The rest, once the queue is found.
abbrev pub create_in :
    Bool → (CreateJob → Json) → ℕ → ℕ → ℕ → Queue → CreateJob → Db → Result Written
unfolding create_by_kind
create_in up template now id queue_id queue body db = do
  guard (not (has_key body.idempotency_key && key_taken queue_id body.idempotency_key db.jobs))
      (chronos_error conflict)
  create_by_kind up template now id queue body db

-- POST /queues/:queueId/jobs
pub create_job : Bool → (CreateJob → Json) → ℕ → ℕ → ℕ → CreateJob → Db → Result Written
unfolding create_by_kind
create_job up template now id queue_id body db = do
  guard (is_valid_create body) (chronos_error validation_error)
  queue ← or_fail (find_unique (λ (q : Queue). q.id) queue_id db.queues) (chronos_error not_found)
  create_in up template now id queue_id queue body db

abbrev pub batch_row : ℕ → ℕ → Queue → ℕ × BatchJob → Job
batch_row now batch_id queue (id, item) = record {
  id = id;
  queue_id = queue.id;
  type = item.type;
  payload = or_empty item.payload;
  status = initial_status now (or_now now item.run_at);
  priority = or_zero item.priority;
  run_at = or_now now item.run_at;
  batch_id = some batch_id;
  attempt_count = 0;
  retry_policy_id = queue.default_retry_policy_id;
  idempotency_key = item.idempotency_key;
  created_at = now;
  updated_at = now;
}

-- The transaction of `job.create`s: all rows, or none.
pub insert_jobs : List Job → Db → Result Db
unfolding insert_job
insert_jobs [] db = ok db
insert_jobs (job ∷ jobs) db = do inserted ← insert_job job db; insert_jobs jobs inserted

-- Some item's key is taken already.
abbrev pub keys_conflict : ℕ → List (ℕ × BatchJob) → List Job → Bool
keys_conflict queue_id [] jobs = false
keys_conflict queue_id ((id, item) ∷ items) jobs =
    (has_key item.idempotency_key && key_taken queue_id item.idempotency_key jobs)
    || keys_conflict queue_id items jobs

-- POST /queues/:queueId/jobs/batch; each item comes with the identifier of its new row.
pub create_batch : Bool → ℕ → ℕ → ℕ → List (ℕ × BatchJob) → Db → Result Written
unfolding insert_jobs
create_batch up now batch_id queue_id items db = do
  guard (is_valid_batch (map (λ (item : ℕ × BatchJob). item.1) items))
      (chronos_error validation_error)
  queue ← or_fail (find_unique (λ (q : Queue). q.id) queue_id db.queues) (chronos_error not_found)
  guard (not (keys_conflict queue_id items db.jobs)) (chronos_error conflict)
  inserted ← insert_jobs (map (batch_row now batch_id queue) items) db
  ok (announce up (batch_created batch_id queue.id (length items)) inserted)

abbrev pub is_retryable : JobStatus → Bool
is_retryable JobStatus.failed = true
is_retryable JobStatus.dead_letter = true
is_retryable JobStatus.cancelled = true
is_retryable _ = false

-- POST /jobs/:id/retry
unfoldable pub retry : Bool → ℕ → ℕ → Db → Result Written
retry up now id db = do
  job ← or_fail (find_unique (λ (j : Job). j.id) id db.jobs) (chronos_error not_found)
  guard (is_retryable job.status) (chronos_error validation_error)
  ok (
      announce up (job_transition id Transition.queued job.queue_id) (record db {
        dead_letters = delete_where (λ d. d.original_job_id == id) db.dead_letters;
        jobs =
            update_where (λ j. j.id == id)
              (λ j. record j {
                status = JobStatus.queued;
                run_at = now;
                attempt_count = 0;
                updated_at = now;
              })
              db.jobs;
      }))

abbrev pub is_cancellable : JobStatus → Bool
is_cancellable JobStatus.queued = true
is_cancellable JobStatus.scheduled = true
is_cancellable _ = false

-- POST /jobs/:id/cancel
unfoldable pub cancel : Bool → ℕ → ℕ → Db → Result Written
cancel up now id db = do
  job ← or_fail (find_unique (λ (j : Job). j.id) id db.jobs) (chronos_error not_found)
  guard (is_cancellable job.status) (chronos_error validation_error)
  ok (
      announce up (job_transition id Transition.cancelled job.queue_id) (record db {
        jobs =
            update_where (λ j. j.id == id)
              (λ j. record j { status = JobStatus.cancelled; updated_at = now }) db.jobs;
      }))
