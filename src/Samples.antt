-- ===== src/Samples.antt =====
-- Rows for the tests of the other modules.
use chronos_job_scheduler.Prelude.{ℕ, false, none, []}
use chronos_job_scheduler.Schema.{
  Db, Job, JobStatus, Queue, Worker, WorkerStatus, JobExecution, ExecutionStatus, RetryPolicy,
  RetryStrategy,
}
use chronos_job_scheduler.Schema.JsonValue.{object, end}

abbrev pub empty_db : Db
empty_db = record {
  jobs = [];
  executions = [];
  logs = [];
  dead_letters = [];
  workers = [];
  heartbeats = [];
  queues = [];
  retry_policies = [];
  scheduled_jobs = [];
  projects = [];
  memberships = [];
  users = [];
  organizations = [];
  published = [];
}

-- A job of queue 7.
abbrev pub job : ℕ → JobStatus → ℕ → ℕ → Job
job id status priority run_at = record {
  id = id;
  queue_id = 7;
  type = "echo";
  payload = object end;
  status = status;
  priority = priority;
  run_at = run_at;
  batch_id = none;
  attempt_count = 0;
  retry_policy_id = none;
  idempotency_key = none;
  created_at = 0;
  updated_at = 0;
}

abbrev pub queue : Queue
queue = record {
  id = 7;
  project_id = 3;
  name = "mail";
  priority = 0;
  concurrency_limit = 2;
  is_paused = false;
  default_retry_policy_id = none;
  created_at = 0;
}

-- The other queue's policy has one attempt.
abbrev pub one_attempt : RetryPolicy
one_attempt = record {
  id = 5;
  project_id = 3;
  strategy = RetryStrategy.fixed;
  base_delay_ms = 100;
  max_delay_ms = 100;
  max_attempts = 1;
}

abbrev pub worker : ℕ → ℕ → Worker
worker id beat = record {
  id = id;
  hostname = "host";
  pid = 1;
  status = WorkerStatus.active;
  last_heartbeat_at = beat;
}

abbrev pub execution : ℕ → ℕ → ℕ → JobExecution
execution id job_id worker_id = record {
  id = id;
  job_id = job_id;
  worker_id = worker_id;
  attempt_number = 1;
  started_at = 0;
  finished_at = none;
  status = ExecutionStatus.running;
  error_message = none;
  duration_ms = none;
}
