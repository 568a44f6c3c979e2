-- ===== src/Scheduler.antt =====
-- worker/src/scheduler.ts: `isJobTemplate` and `tick`, which turns the cron definitions that are due
-- into jobs. The package croner, Prisma's reading of the columns out of a JSON template, the clock and
-- what throws are parameters, in `Tick`. New jobs take identifiers that count up from an argument.
pub mod Due
pub mod Overlap
pub mod Additions
mod Tests
use mathlib.Core.Option.{map}
use chronos_job_scheduler.Prelude.{
  ℕ, suc, String, Bool, true, false, ◌&&◌, Option, none, some, List, [], ◌∷◌, ◌++◌, ◌==◌, leb,
  if◌then◌else◌, select, update_where,
}
use chronos_job_scheduler.Schema.{Db, Job, JobStatus, ScheduledJob, job_created, publish}
use chronos_job_scheduler.Schema.JsonValue.{Json, object, end, null, text_field, member}

-- What `new Cron(expression).nextRun()` does: throw, answer `null`, or answer a time.
pub data CronAnswer : Type 0 where
  throws never : CronAnswer
  at : ℕ → CronAnswer

-- The call that throws while a definition is handled, if any.
pub data Fault : Type 0 where
  answered create_fails update_fails publish_fails : Fault

-- `integer` and `identifier` say what Prisma stores of a JSON value in an Int and in a String column;
-- `none` is a value that it rejects. `fault` is by the identifier of the definition.
pub record Tick : Type 0 where
  pub cron : String → ℕ → CronAnswer
  pub integer : Json → Option ℕ
  pub identifier : Json → Option ℕ
  pub fault : ℕ → Fault
  pub now : ℕ

abbrev pub is_past : ℕ → Option ℕ → Bool
is_past now none = false
is_past now (some t) = leb t now

-- `{ isActive: true, nextRunAt: { lte: new Date() } }`
pub is_due : ℕ → ScheduledJob → Bool
is_due now d = d.is_active && is_past now d.next_run_at

-- `v ?? fallback`, read as a column.
abbrev pub column {ℓ} : {A : Type ℓ} → (Json → Option A) → A → Option Json → Option A
column read fallback none = some fallback
column read fallback (some null) = some fallback
column read fallback (some (Json.boolean b)) = read (Json.boolean b)
column read fallback (some (Json.number n)) = read (Json.number n)
column read fallback (some (Json.text s)) = read (Json.text s)
column read fallback (some (Json.array vs)) = read (Json.array vs)
column read fallback (some (object fs)) = read (object fs)

-- The `data` of `prisma.job.create`; `none` if Prisma rejects it.
pub template_job : Tick → ℕ → ScheduledJob → String → Option Job
template_job t id d type = elim (column some (object end) (member "payload" d.job_template)) [
  | none ↦ none
  | some payload ↦ elim (column t.integer 0 (member "priority" d.job_template)) [
    | none ↦ none
    | some priority ↦
        elim (column (λ v. map some (t.identifier v)) none
          (member "retryPolicyId" d.job_template)) [
            | none ↦ none
            | some retry_policy_id ↦ some (record {
              id = id;
              queue_id = d.queue_id;
              type = type;
              payload = payload;
              status = JobStatus.queued;
              priority = priority;
              run_at = t.now;
              batch_id = none;
              attempt_count = 0;
              retry_policy_id = retry_policy_id;
              idempotency_key = none;
              created_at = t.now;
              updated_at = t.now;
            })
          ]
  ]
]

-- `prisma.scheduledJob.update`
abbrev pub update_definition : ℕ → (ScheduledJob → ScheduledJob) → Db → Db
update_definition id f db = record db {
  scheduled_jobs = update_where (λ d. d.id == id) f db.scheduled_jobs;
}

abbrev pub advance : ℕ → ℕ → ScheduledJob → ScheduledJob
advance now next d = record d { last_run_at = some now; next_run_at = some next }

abbrev pub deactivate : ScheduledJob → ScheduledJob
deactivate d = record d { is_active = false }

abbrev pub add_job : Job → Db → Db
add_job job db = record db { jobs = db.jobs ++ job ∷ [] }

-- Create the job, advance the definition, publish: three calls, each of which may throw.
pub create_and_advance : Tick → ScheduledJob → ℕ → Job → ℕ × Db → ℕ × Db
create_and_advance t d next job (id, db) = elim (t.fault d.id) [
  | create_fails ↦ (id, db)
  | update_fails ↦ (suc id, add_job job db)
  | publish_fails ↦ (suc id, update_definition d.id (advance t.now next) (add_job job db))
  | answered ↦ (
    suc id,
    publish true (job_created job.id d.queue_id d.id)
        (update_definition d.id (advance t.now next) (add_job job db)),
  )
]

pub deactivate_unless : Tick → ScheduledJob → ℕ × Db → ℕ × Db
deactivate_unless t d (id, db) = elim (t.fault d.id) [
  | update_fails ↦ (id, db)
  | answered ↦ (id, update_definition d.id deactivate db)
  | create_fails ↦ (id, update_definition d.id deactivate db)
  | publish_fails ↦ (id, update_definition d.id deactivate db)
]

-- The body of the loop for one definition, as the query returned it.
pub materialize : Tick → ScheduledJob → ℕ × Db → ℕ × Db
unfolding create_and_advance deactivate_unless
materialize t d (id, db) = elim (text_field "type" d.job_template) [
  | none ↦ (id, db)
  | some type ↦ elim (t.cron d.cron_expression t.now) [
    | throws ↦ (id, db)
    | never ↦ deactivate_unless t d (id, db)
    | at next ↦ elim (template_job t id d type) [
      | none ↦ (id, db)
      | some job ↦ create_and_advance t d next job (id, db)
    ]
  ]
]

pub materialize_all : Tick → List ScheduledJob → ℕ × Db → ℕ × Db
unfolding materialize
materialize_all t [] s = s
materialize_all t (d ∷ ds) s = materialize_all t ds (materialize t d s)

-- `tick`; `query_fails` says that the query throws.
pub tick : Bool → Tick → ℕ × Db → ℕ × Db
unfolding materialize_all
tick true t s = s
tick false t (id, db) = materialize_all t (select (is_due t.now) db.scheduled_jobs) (id, db)
