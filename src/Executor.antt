-- ===== src/Executor.antt =====
-- worker/src/executor.ts: `executeJob`. The handler (worker/src/handlers, or any other) is an argument
-- that gives what it logs and the message of what it throws. `Surroundings` holds what else one run
-- meets: the clock, the identifier of the new row, whether Redis answers, and what the transactions
-- of step 5 throw. A transaction that throws changes nothing.
pub mod Policy
pub mod Rows
pub mod Branches
pub mod Attempts
pub mod Ledger
pub mod Open
pub mod Identifiers
mod Tests
use mathlib.Core.List.{map}
use chronos_job_scheduler.Prelude.{
  ℕ, ◌+◌, ◌-◌, String, Bool, true, false, Option, none, some, List, [], ◌∷◌, ◌++◌, ◌==◌, ltb,
  if◌then◌else◌, find_unique, update_where, exists_where,
}
use chronos_job_scheduler.Schema.{
  Db, Job, JobStatus, JobExecution, ExecutionStatus, JobLog, LogMessage, completed_in, retrying,
  moved_to_dead_letter, handler_message, DeadLetterJob, Transition, job_transition, publish,
}
use chronos_job_scheduler.Schema.JsonValue.{Json, null, boolean, number, text, array, object, end}
use chronos_job_scheduler.Retry.{Random, calculate_delay}
use Policy.{EffectivePolicy, resolve_policy}

-- An entry of `logBuffer`.
pub record LogEntry : Type 0 where
  pub level : String
  pub message : String

-- What `getHandler(type)` and the call of the handler do: the entries logged, and the error thrown.
abbrev pub Handle : Type 0
Handle = String → Json → List LogEntry × Option String

pub record Surroundings : Type 0 where
  pub execution_id : ℕ
  pub started_at : ℕ
  pub ended_at : ℕ
  pub redis_up : Bool
  pub random : Random
  pub success_error : Option String
  pub failure_error : Option String

pub data Outcome : Type 0 where
  job_not_found job_completed job_dead_lettered : Outcome
  job_retrying : ℕ → Outcome
  rejected : String → Outcome

abbrev pub is_job : ℕ → Job → Bool
is_job id j = j.id == id

abbrev pub is_execution : ℕ → JobExecution → Bool
is_execution id e = e.id == id

-- Steps 2 and 3: mark the job, publish, create the execution row.
pub start_execution : Surroundings → Job → ℕ → Db → Db
start_execution s job worker_id db =
    let marked =
      publish s.redis_up (job_transition job.id Transition.running job.queue_id) (record db {
        jobs =
            update_where (is_job job.id)
              (λ j. record j { status = JobStatus.running; updated_at = s.started_at }) db.jobs;
      }) in
    record marked { executions = execution ∷ db.executions }
  where
    execution : JobExecution
    execution = record {
      id = s.execution_id;
      job_id = job.id;
      worker_id = worker_id;
      attempt_number = job.attempt_count + 1;
      started_at = s.started_at;
      finished_at = none;
      status = ExecutionStatus.running;
      error_message = none;
      duration_ms = none;
    }

-- `data` of `jobExecution.update` in each of the three transactions.
abbrev pub close_execution :
    Surroundings → ExecutionStatus → Option String → List JobExecution → List JobExecution
close_execution s status error = update_where (is_execution s.execution_id) λ e. record e {
  status = status;
  finished_at = some s.ended_at;
  duration_ms = some (s.ended_at - s.started_at);
  error_message = error;
}

-- One summary line, then the buffered lines of the handler.
abbrev pub flush_logs :
    Surroundings → String → LogMessage → List LogEntry → List JobLog → List JobLog
flush_logs s level message buffer logs =
    logs
    ++ (record {
      execution_id = s.execution_id;
      level = level;
      message = message;
      timestamp = s.ended_at;
    }
        ∷ map
            (λ e. record {
              execution_id = s.execution_id;
              level = e.level;
              message = handler_message e.message;
              timestamp = s.ended_at;
            })
            buffer)

pub complete_job : Surroundings → Job → List LogEntry → Db → Db
complete_job s job buffer db =
    publish s.redis_up (job_transition job.id Transition.completed job.queue_id) (record db {
      jobs =
          update_where (is_job job.id)
            (λ j. record j { status = JobStatus.completed; updated_at = s.ended_at }) db.jobs;
      executions = close_execution s ExecutionStatus.completed none db.executions;
      logs = flush_logs s "info" (completed_in (s.ended_at - s.started_at)) buffer db.logs;
    })

pub retry_job : Surroundings → EffectivePolicy → Job → ℕ → String → List LogEntry → Db → Db
retry_job s policy job delay_ms error buffer db =
    publish s.redis_up (job_transition job.id Transition.failed_retrying job.queue_id) (record db {
      jobs =
          update_where (is_job job.id)
            (λ j. record j {
              status = JobStatus.queued;
              attempt_count = job.attempt_count + 1;
              run_at = s.ended_at + delay_ms;
              updated_at = s.ended_at;
            })
            db.jobs;
      executions = close_execution s ExecutionStatus.failed (some error) db.executions;
      logs =
          flush_logs s "error" (retrying (job.attempt_count + 1) policy.max_attempts error delay_ms)
            buffer db.logs;
    })

-- `payload ?? {}`
abbrev or_object : Json → Json
or_object null = object end
or_object (boolean b) = boolean b
or_object (number n) = number n
or_object (text s) = text s
or_object (array vs) = array vs
or_object (object fs) = object fs

pub bury_job : Surroundings → Job → String → List LogEntry → Db → Db
bury_job s job error buffer db =
    publish s.redis_up (job_transition job.id Transition.dead_letter job.queue_id) (record db {
      jobs =
          update_where (is_job job.id)
            (λ j. record j {
              status = JobStatus.dead_letter;
              attempt_count = job.attempt_count + 1;
              updated_at = s.ended_at;
            })
            db.jobs;
      executions = close_execution s ExecutionStatus.failed (some error) db.executions;
      dead_letters = letter ∷ db.dead_letters;
      logs =
          flush_logs s "error" (moved_to_dead_letter (job.attempt_count + 1) error) buffer db.logs;
    })
  where
    letter : DeadLetterJob
    letter = record {
      original_job_id = job.id;
      queue_id = job.queue_id;
      payload = or_object job.payload;
      failure_reason = error;
      attempt_count = job.attempt_count + 1;
    }

-- `original_job_id` is unique, so a second row for a job makes the transaction throw.
abbrev pub has_letter : ℕ → List DeadLetterJob → Bool
has_letter id = exists_where (λ d. d.original_job_id == id)

abbrev pub unless_thrown : Option String → Outcome → Db → Db → Outcome × Db
unless_thrown none outcome db' db = (outcome, db')
unless_thrown (some e) outcome db' db = (rejected e, db)

-- The failure path: retry while attempts are left, else the dead letter queue.
unfoldable pub fail_job :
    Surroundings → EffectivePolicy → Job → String → List LogEntry → Db → Outcome × Db
unfolding retry_job bury_job
fail_job s policy job error buffer db =
    let delay_ms =
      calculate_delay policy.strategy policy.base_delay_ms policy.max_delay_ms
        (job.attempt_count + 1) s.random in
    if ltb (job.attempt_count + 1) policy.max_attempts
    then unless_thrown s.failure_error (job_retrying delay_ms)
        (retry_job s policy job delay_ms error buffer db) db
    else if has_letter job.id db.dead_letters
    then (rejected "Unique constraint failed", db)
    else unless_thrown s.failure_error job_dead_lettered (bury_job s job error buffer db) db

-- The `try` and its `catch`: an error of the handler, or of the success transaction, is a failure.
unfoldable pub settle_job :
    Surroundings → EffectivePolicy → Job → List LogEntry × Option String → Db → Outcome × Db
unfolding complete_job fail_job
settle_job s policy job (buffer, some error) db = fail_job s policy job error buffer db
settle_job s policy job (buffer, none) db = elim s.success_error [
  | none ↦ (job_completed, complete_job s job buffer db)
  | some error ↦ fail_job s policy job error buffer db
]

unfoldable pub execute_job : Handle → Surroundings → ℕ → ℕ → Db → Outcome × Db
unfolding start_execution settle_job resolve_policy
execute_job handle s job_id worker_id db = elim (find_unique (λ (j : Job). j.id) job_id db.jobs) [
  | none ↦ (job_not_found, db)
  | some job ↦
      settle_job s (resolve_policy db job) job (handle job.type job.payload)
        (start_execution s job worker_id db)
]
