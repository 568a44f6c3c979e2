-- ===== src/Schema.antt =====
-- The tables of prisma/schema.prisma: enumerations, rows, and the database as the tables together
-- with what was published on Redis. Identifiers are opaque texts that are only compared, so they are
-- naturals here; times are milliseconds. Columns that no modelled code reads or writes are left out.
pub mod JsonValue
use chronos_job_scheduler.Prelude.{
  ◌==◌, if◌then◌else◌, ℕ, String, Bool, true, false, Option, List, [], ◌∷◌, ◌++◌,
}
use JsonValue.{Json}

pub data JobStatus : Type 0 where
  queued scheduled claimed running completed failed dead_letter cancelled : JobStatus

pub data ExecutionStatus : Type 0 where
  running completed failed : ExecutionStatus

pub data WorkerStatus : Type 0 where
  active draining dead : WorkerStatus

pub data OrgMemberRole : Type 0 where
  owner admin member : OrgMemberRole

pub data UserRole : Type 0 where
  admin member : UserRole

pub data RetryStrategy : Type 0 where
  fixed linear exponential : RetryStrategy

pub record RetryPolicy : Type 0 where
  pub id : ℕ
  pub project_id : ℕ
  pub strategy : RetryStrategy
  pub base_delay_ms : ℕ
  pub max_delay_ms : ℕ
  pub max_attempts : ℕ

pub record Queue : Type 0 where
  pub id : ℕ
  pub project_id : ℕ
  pub name : String
  pub priority : ℕ
  pub concurrency_limit : ℕ
  pub is_paused : Bool
  pub default_retry_policy_id : Option ℕ
  pub created_at : ℕ

pub record Job : Type 0 where
  pub id : ℕ
  pub queue_id : ℕ
  pub type : String
  pub payload : Json
  pub status : JobStatus
  pub priority : ℕ
  pub run_at : ℕ
  pub batch_id : Option ℕ
  pub attempt_count : ℕ
  pub retry_policy_id : Option ℕ
  pub idempotency_key : Option String
  pub created_at : ℕ
  pub updated_at : ℕ

pub record JobExecution : Type 0 where
  pub id : ℕ
  pub job_id : ℕ
  pub worker_id : ℕ
  pub attempt_number : ℕ
  pub started_at : ℕ
  pub finished_at : Option ℕ
  pub status : ExecutionStatus
  pub error_message : Option String
  pub duration_ms : Option ℕ

-- The message texts that the worker composes, by what stands in them.
pub data LogMessage : Type 0 where
  completed_in : ℕ → LogMessage
  retrying : ℕ → ℕ → String → ℕ → LogMessage
  moved_to_dead_letter : ℕ → String → LogMessage
  handler_message : String → LogMessage

pub record JobLog : Type 0 where
  pub execution_id : ℕ
  pub level : String
  pub message : LogMessage
  pub timestamp : ℕ

pub record Worker : Type 0 where
  pub id : ℕ
  pub hostname : String
  pub pid : ℕ
  pub status : WorkerStatus
  pub last_heartbeat_at : ℕ

-- `cpu_load` in a fixed unit: the code only stores it and passes it on.
pub record WorkerHeartbeat : Type 0 where
  pub id : ℕ
  pub worker_id : ℕ
  pub timestamp : ℕ
  pub active_job_count : ℕ
  pub cpu_load : ℕ

pub record ScheduledJob : Type 0 where
  pub id : ℕ
  pub project_id : ℕ
  pub cron_expression : String
  pub queue_id : ℕ
  pub job_template : Json
  pub is_active : Bool
  pub last_run_at : Option ℕ
  pub next_run_at : Option ℕ
  pub created_at : ℕ

pub record DeadLetterJob : Type 0 where
  pub original_job_id : ℕ
  pub queue_id : ℕ
  pub payload : Json
  pub failure_reason : String
  pub attempt_count : ℕ

pub record User : Type 0 where
  pub id : ℕ
  pub email : String
  pub password_hash : String
  pub role : UserRole
  pub created_at : ℕ

-- The name as its code points, since the code computes with it.
pub record Organization : Type 0 where
  pub id : ℕ
  pub name : List ℕ
  pub owner_id : ℕ

pub record Project : Type 0 where
  pub id : ℕ
  pub org_id : ℕ
  pub name : String
  pub api_key : ℕ
  pub created_at : ℕ

pub record OrgMembership : Type 0 where
  pub org_id : ℕ
  pub user_id : ℕ
  pub role : OrgMemberRole

-- The statuses that a published transition names.
pub data Transition : Type 0 where
  queued scheduled running completed failed_retrying dead_letter cancelled : Transition

-- What is published on the channels "job:transitions" and "worker:heartbeat".
pub data Event : Type 0 where
  job_transition : ℕ → Transition → ℕ → Event
  worker_dead_requeue : ℕ → ℕ → Event
  job_created : ℕ → ℕ → ℕ → Event
  scheduled_job_created : ℕ → ℕ → Event
  batch_created : ℕ → ℕ → ℕ → Event
  worker_heartbeat : ℕ → ℕ → ℕ → Event

pub record Db : Type 0 where
  pub jobs : List Job
  pub executions : List JobExecution
  pub logs : List JobLog
  pub dead_letters : List DeadLetterJob
  pub workers : List Worker
  pub heartbeats : List WorkerHeartbeat
  pub queues : List Queue
  pub retry_policies : List RetryPolicy
  pub scheduled_jobs : List ScheduledJob
  pub projects : List Project
  pub memberships : List OrgMembership
  pub users : List User
  pub organizations : List Organization
  pub published : List Event

-- Its place in the enumeration.
abbrev pub status_rank : JobStatus → ℕ
status_rank JobStatus.queued = 0
status_rank JobStatus.scheduled = 1
status_rank JobStatus.claimed = 2
status_rank JobStatus.running = 3
status_rank JobStatus.completed = 4
status_rank JobStatus.failed = 5
status_rank JobStatus.dead_letter = 6
status_rank JobStatus.cancelled = 7

abbrev pub same_status : JobStatus → JobStatus → Bool
same_status a b = status_rank a == status_rank b

abbrev pub is_queued : JobStatus → Bool
is_queued JobStatus.queued = true
is_queued _ = false

-- `status: { in: ["claimed", "running"] }`
abbrev pub is_in_flight : JobStatus → Bool
is_in_flight JobStatus.claimed = true
is_in_flight JobStatus.running = true
is_in_flight _ = false

abbrev pub is_running : ExecutionStatus → Bool
is_running ExecutionStatus.running = true
is_running _ = false

abbrev pub is_active_worker : WorkerStatus → Bool
is_active_worker WorkerStatus.active = true
is_active_worker _ = false

-- `redis.publish`: the event is delivered if Redis answers.
abbrev pub publish : Bool → Event → Db → Db
publish up e db = record db { published = if up then db.published ++ e ∷ [] else db.published }
