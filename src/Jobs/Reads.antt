-- ===== src/Jobs/Reads.antt =====
-- api/src/routes/jobs.ts: the handlers that only read, for the user that `requireAuth` attached.
pub mod Ties
pub mod Scoped
pub mod Members
mod Tests
use mathlib.Core.Option
use chronos_job_scheduler.Prelude.{
  ℕ, String, str_eq, Bool, true, false, ◌&&◌, ◌||◌, Option, none, some, List, [], ◌∷◌, map, ◌==◌,
  leb, ltb, if◌then◌else◌, select, count_where, find_first, find_unique, order_by, take, includes,
  length,
}
use chronos_job_scheduler.Schema.{
  same_status, Db, Job, JobStatus, JobExecution, JobLog, LogMessage, ExecutionStatus, Queue,
  RetryPolicy, DeadLetterJob, Worker,
}
use chronos_job_scheduler.Errors.{
  Result, ok, err, ◌>>=◌, ◌>>◌, Thrown, chronos_error, unexpected, not_found, guard, or_fail,
}
use chronos_job_scheduler.Rbac.{find_job, find_queue, org_of_queue, org_of_job}
use chronos_job_scheduler.Pagination.{ParsedPagination, parse_pagination}
use chronos_job_scheduler.Listing.{Listing, listing}
use chronos_job_scheduler.Scope.{org_ids, in_orgs, require_membership}

-- The enumeration's texts: Prisma refuses any other as the value of a condition on the column.
abbrev pub status_of_text : String → Option JobStatus
status_of_text s =
    if str_eq s "queued"
    then some JobStatus.queued
    else if str_eq s "scheduled"
    then some JobStatus.scheduled
    else if str_eq s "claimed"
    then some JobStatus.claimed
    else if str_eq s "running"
    then some JobStatus.running
    else if str_eq s "completed"
    then some JobStatus.completed
    else if str_eq s "failed"
    then some JobStatus.failed
    else if str_eq s "dead_letter"
    then some JobStatus.dead_letter
    else if str_eq s "cancelled"
    then some JobStatus.cancelled
    else none

-- The query of GET /jobs. An empty text is tested for truth and so ignored; an empty identifier is
-- `none` already.
pub record JobQuery : Type 0 where
  pub queue_id : Option ℕ
  pub status : Option String
  pub type : Option String
  pub batch_id : Option ℕ
  pub page : Option (List ℕ)
  pub limit : Option (List ℕ)

-- `...(q.status && { status: q.status as JobStatus })`
abbrev pub status_filter : Option String → Result (Option JobStatus)
status_filter none = ok none
status_filter (some s) =
    if str_eq s "" then ok none else or_fail (Option.map some (status_of_text s)) unexpected

abbrev pub is_queue_asked : Option ℕ → Job → Bool
is_queue_asked none j = true
is_queue_asked (some id) j = j.queue_id == id

abbrev pub is_status_asked : Option JobStatus → Job → Bool
is_status_asked none j = true
is_status_asked (some s) j = same_status s j.status

abbrev pub is_type_asked : Option String → Job → Bool
is_type_asked none j = true
is_type_asked (some t) j = str_eq t "" || str_eq t j.type

abbrev pub is_batch : ℕ → Option ℕ → Bool
is_batch id none = false
is_batch id (some batch) = batch == id

abbrev pub is_batch_asked : Option ℕ → Job → Bool
is_batch_asked none j = true
is_batch_asked (some id) j = is_batch id j.batch_id

-- The conditions of the query, without the organization's.
abbrev pub is_asked : JobQuery → Option JobStatus → Job → Bool
is_asked q status j =
    is_queue_asked q.queue_id j
    && is_status_asked status j
    && is_type_asked q.type j
    && is_batch_asked q.batch_id j

-- `orderBy: [{ priority: 'desc' }, { runAt: 'asc' }, { createdAt: 'desc' }]`: the order in which the database returns the rows. It is free to rank those that the three columns leave
-- equal, by `tie`, and may do so anew for each query.
abbrev pub returned_before : (Job → ℕ) → Job → Job → Bool
returned_before tie a b =
    ltb b.priority a.priority
    || (a.priority == b.priority
        && (ltb a.run_at b.run_at
            || (a.run_at == b.run_at
                && (ltb b.created_at a.created_at
                    || (a.created_at == b.created_at && leb (tie a) (tie b))))))

-- The rows that the listing pages through.
unfoldable pub visible_jobs : (Job → ℕ) → ℕ → JobQuery → Option JobStatus → Db → List Job
visible_jobs tie user_id q status db =
    let orgs = org_ids user_id db in
    order_by (returned_before tie)
      (select (λ j. in_orgs orgs (org_of_job db (some j)) && is_asked q status j) db.jobs)

pub record JobSummary : Type 0 where
  pub job : Job
  pub queue : Option Queue
  pub execution_count : ℕ

-- A listed job: its columns, its queue's name and project, and the number of its executions.
unfoldable pub summarize_job : Db → Job → JobSummary
summarize_job db j = record {
  job = j;
  queue = find_queue j.queue_id db;
  execution_count = count_where (λ e. e.job_id == j.id) db.executions;
}

-- GET /jobs
unfoldable pub list_jobs : (Job → ℕ) → ℕ → JobQuery → Db → Result (Listing JobSummary)
unfolding visible_jobs summarize_job
list_jobs tie user_id q db = do
  status ← status_filter q.status
  ok (
      listing (summarize_job db) (parse_pagination q.page q.limit)
        (visible_jobs tie user_id q status db))

-- What every route on a single job does first. It answers with the job's row.
pub find_visible : ℕ → ℕ → Db → Result Job
find_visible user_id id db = do
  job ← or_fail (find_job id db) (chronos_error not_found)
  membership ← require_membership user_id (org_of_queue db (find_queue job.queue_id db)) db
  ok job

-- `orderBy: { attemptNumber: 'desc' }`
abbrev pub latest_first : JobExecution → JobExecution → Bool
latest_first a b = leb b.attempt_number a.attempt_number

pub executions_of : ℕ → Db → List JobExecution
executions_of id db = order_by latest_first (select (λ e. e.job_id == id) db.executions)

-- `orderBy: { timestamp: 'asc' }`
abbrev pub oldest_first : JobLog → JobLog → Bool
oldest_first a b = leb a.timestamp b.timestamp

-- An execution with its worker and the first of its logs.
pub record ExecutionDetail : Type 0 where
  pub execution : JobExecution
  pub worker : Option Worker
  pub logs : List JobLog

abbrev pub logs_of : ℕ → ℕ → Db → List JobLog
logs_of few id db = take few (order_by oldest_first (select (λ l. l.execution_id == id) db.logs))

abbrev pub first_of {ℓ} : {A : Type ℓ} → List A → Option A
first_of [] = none
first_of (x ∷ xs) = some x

abbrev pub find_policy : Option ℕ → Db → Option RetryPolicy
find_policy none db = none
find_policy (some id) db = find_unique (λ (p : RetryPolicy). p.id) id db.retry_policies

pub record JobDetail : Type 0 where
  pub job : Job
  pub queue : Option Queue
  pub retry_policy : Option RetryPolicy
  pub latest_execution : Option (JobExecution × List JobLog)
  pub dead_letter : Option DeadLetterJob

pub describe_job : Db → Job → JobDetail
unfolding executions_of
describe_job db j = record {
  job = j;
  queue = find_queue j.queue_id db;
  retry_policy = find_policy j.retry_policy_id db;
  latest_execution =
      Option.map (λ (e : JobExecution). (e, logs_of 50 e.id db)) (first_of (executions_of j.id db));
  dead_letter = find_first (λ d. d.original_job_id == j.id) db.dead_letters;
}

-- GET /jobs/:id
pub get_job : ℕ → ℕ → Db → Result JobDetail
unfolding find_visible describe_job
get_job user_id id db = do job ← find_visible user_id id db; ok (describe_job db job)

abbrev pub describe_execution : Db → JobExecution → ExecutionDetail
describe_execution db e = record {
  execution = e;
  worker = find_unique (λ (w : Worker). w.id) e.worker_id db.workers;
  logs = logs_of 100 e.id db;
}

-- GET /jobs/:id/executions
pub list_executions :
    ℕ → ℕ → Option (List ℕ) → Option (List ℕ) → Db → Result (Listing ExecutionDetail)
unfolding find_visible executions_of
list_executions user_id id page limit db = do
  job ← find_visible user_id id db
  ok (listing (describe_execution db) (parse_pagination page limit) (executions_of id db))

-- The logs of all executions of a job.
pub job_logs : ℕ → Db → List JobLog
job_logs id db =
    let ids = map (λ (e : JobExecution). e.id) (select (λ e. e.job_id == id) db.executions) in
    order_by oldest_first (select (λ l. includes l.execution_id ids) db.logs)

-- A log with its execution.
abbrev pub with_execution : Db → JobLog → JobLog × Option JobExecution
with_execution db l = (l, find_unique (λ (e : JobExecution). e.id) l.execution_id db.executions)

-- GET /jobs/:id/logs
pub list_logs :
    ℕ → ℕ → Option (List ℕ) → Option (List ℕ) → Db → Result (Listing (JobLog × Option JobExecution))
unfolding find_visible job_logs
list_logs user_id id page limit db = do
  job ← find_visible user_id id db
  ok (listing (with_execution db) (parse_pagination page limit) (job_logs id db))
