-- ===== src/Handlers/Tests.antt =====
-- worker/src/handlers: tests, and the theorem at a mail without a subject.
use chronos_job_scheduler.Prelude.{◌≡◌, refl, str_eq, false, some, none, List, [], ◌∷◌, arith}
use chronos_job_scheduler.Schema.{Db, Job, JobStatus}
use chronos_job_scheduler.Schema.JsonValue.{object, field, text, end}
use chronos_job_scheduler.Samples.{empty_db, job, queue, one_attempt}
use chronos_job_scheduler.Executor.{Surroundings}
use chronos_job_scheduler.Executor.Policy.{policy_of, resolve_policy}
use chronos_job_scheduler.Executor.Attempts.{attempts, IsBuried}
use chronos_job_scheduler.Handlers.{
  Environment, failed, get_handler, inherited_property, missing, handle,
}
use chronos_job_scheduler.Handlers.Failures.{refused-IsBuried}

-- A type that names a property of every object is not refused.
inherited_type : get_handler "toString" ≡ inherited_property
unfolding get_handler
inherited_type = refl

unknown_type : get_handler "resize_image" ≡ missing
unfolding get_handler
unknown_type = refl

abbrev environment : Environment
environment = record {
  stringify = λ v. "{}";
  sleep_ms = "1500";
  is_zero = λ n. str_eq n "0";
  length_of = λ v. "0";
  fetch = λ url timeout. failed "offline";
  inherited = λ type payload. none;
}

abbrev mail : Job
mail = record (job 1 JobStatus.claimed 0 0) {
  type = "send_email";
  payload = object (field "to" (text "a@b.c") end);
  retry_policy_id = some 5;
}

abbrev db : Db
db = record empty_db { jobs = mail ∷ []; queues = queue ∷ []; retry_policies = one_attempt ∷ [] }

abbrev once : List Surroundings
once =
    record {
      execution_id = 1;
      started_at = 100;
      ended_at = 110;
      redis_up = false;
      random = record { numerator = 0; denominator = 1 };
      success_error = none;
      failure_error = none;
    }
    ∷ []

refused-IsBuried_example : IsBuried 1 1 (attempts (handle environment) 1 9 once db)
unfolding resolve_policy get_handler
refused-IsBuried_example =
    refused-IsBuried environment (policy_of one_attempt) 1 9 once db mail refl refl refl refl refl
      (refl, tt) (omega arith) refl
