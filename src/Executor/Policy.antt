-- ===== src/Executor/Policy.antt =====
-- worker/src/executor.ts: the retry policy in force for a job, and `DEFAULT_RETRY`.
use chronos_job_scheduler.Prelude.{ℕ, Option, none, some, find_unique, List}
use chronos_job_scheduler.Schema.{Db, Job, Queue, RetryPolicy, RetryStrategy, exponential}

pub record EffectivePolicy : Type 0 where
  pub strategy : RetryStrategy
  pub base_delay_ms : ℕ
  pub max_delay_ms : ℕ
  pub max_attempts : ℕ

abbrev pub default_retry : EffectivePolicy
default_retry = record {
  strategy = exponential;
  base_delay_ms = 1000;
  max_delay_ms = 30000;
  max_attempts = 3;
}

abbrev pub policy_of : RetryPolicy → EffectivePolicy
policy_of p = record {
  strategy = p.strategy;
  base_delay_ms = p.base_delay_ms;
  max_delay_ms = p.max_delay_ms;
  max_attempts = p.max_attempts;
}

-- The row that an optional reference names (`include`).
abbrev pub referenced : Option ℕ → List RetryPolicy → Option RetryPolicy
referenced none rows = none
referenced (some id) rows = find_unique (λ (p : RetryPolicy). p.id) id rows

abbrev pub queue_default : Option Queue → Option ℕ
queue_default none = none
queue_default (some q) = q.default_retry_policy_id

-- `a ?? b`
abbrev pub or_policy : Option RetryPolicy → EffectivePolicy → EffectivePolicy
or_policy (some p) q = policy_of p
or_policy none q = q

-- `job.retryPolicy ?? job.queue.defaultRetryPolicy ?? DEFAULT_RETRY`
unfoldable pub resolve_policy : Db → Job → EffectivePolicy
resolve_policy db job = or_policy (referenced job.retry_policy_id db.retry_policies) (
    or_policy
      (referenced (queue_default (find_unique (λ (q : Queue). q.id) job.queue_id db.queues))
        db.retry_policies)
      default_retry)
