-- ===== src/Jobs/Tests.antt =====
-- api/src/routes/jobs.ts: tests, and the theorems at one queue.
use chronos_job_scheduler.Prelude.{
  ℕ, ◌≡◌, ◌⊎◌, refl, true, false, some, none, [], ◌∷◌, ◌==◌, if◌then◌else◌, exists_where, includes,
}
use chronos_job_scheduler.Schema.{Db, Job, JobStatus}
use chronos_job_scheduler.Schema.JsonValue.{Json, null}
use chronos_job_scheduler.Errors.{ok, err, chronos_error, conflict, validation_error}
use chronos_job_scheduler.Samples.{empty_db, job, queue}
use chronos_job_scheduler.Claimer.{is_claimable, claim_jobs}
use chronos_job_scheduler.Claimer.Rows.{find_job}
use chronos_job_scheduler.Jobs.{
  List, insert_jobs, create_batch, create_job, create_by_kind, create_one_shot, insert_job,
  one_shot, is_cancellable, retry, cancel, Written,
}
use chronos_job_scheduler.Jobs.Body.{
  BatchJob, is_valid_batch, is_valid_item, CreateJob, is_valid_create, is_valid_cron,
}
use chronos_job_scheduler.Jobs.Submission.{claim_jobs_scheduled}
use chronos_job_scheduler.Jobs.Keys.{create_job-create_job}
use chronos_job_scheduler.Jobs.Transitions.{retried, cancelled, retry-cases, cancel-cases}

abbrev body : CreateJob
body = record {
  type = "echo";
  payload = none;
  run_at = some 5000;
  cron_expression = none;
  retry_policy_id = none;
  idempotency_key = some "order-1";
  priority = some 3;
}

abbrev cron_body : CreateJob
cron_body = record body { cron_expression = some "0 * * * *" }

abbrev no_template : CreateJob → Json
no_template b = null

abbrev db : Db
db = record empty_db { queues = queue ∷ [] }

abbrev one_job : Db
one_job = record db { jobs = one_shot 1000 1 queue body ∷ [] }

five_fields : is_valid_cron " 0 0  * * 1-5 " ≡ true
unfolding is_valid_cron
five_fields = refl

created : (w : Written) × (create_job true no_template 1000 1 7 body db ≡ ok w)
unfolding create_job create_by_kind create_one_shot insert_job is_valid_create
created = (_, refl)

claim_jobs_scheduled_example :
    (includes 1 (claim_jobs false [] 7 2 9000 one_job).0 ≡ false)
    × (find_job 1 (claim_jobs false [] 7 2 9000 one_job).1.jobs ≡ some (one_shot 1000 1 queue body))
claim_jobs_scheduled_example = claim_jobs_scheduled [] 7 2 9000 1 one_job (refl, tt) refl refl

create_job-create_job_example :
    create_job true no_template 2000 2 7 (record body { priority = none }) created.0.db
    ≡ err (chronos_error conflict)
unfolding is_valid_create
create_job-create_job_example =
    create_job-create_job true true no_template 1000 2000 1 2 7 body
      (record body { priority = none }) db refl refl refl created.1 refl refl

abbrev failed_job : Job
failed_job = job 1 JobStatus.failed 0 0

abbrev with_failed : Db
with_failed = record db { jobs = failed_job ∷ [] }

retry-cases_example :
    ((true ≡ true)
      × ((w : Written) × (retry false 9000 1 with_failed ≡ ok w)
          × (w.is_answered ≡ false)
          × ((k : ℕ)
              → find_job k w.db.jobs
                ≡ (if k == 1 then some (retried 9000 failed_job) else find_job k with_failed.jobs))
          × (is_claimable 7 9000 (retried 9000 failed_job) ≡ true)
          × (exists_where (λ d. d.original_job_id == 1) w.db.dead_letters ≡ false)))
    ⊎ ((true ≡ false) × (retry false 9000 1 with_failed ≡ err (chronos_error validation_error)))
retry-cases_example = retry-cases false 9000 1 with_failed refl

cancel-cases_example :
    ((is_cancellable JobStatus.scheduled ≡ true)
      × ((w : Written) × (cancel false 9000 1 one_job ≡ ok w)
          × (w.is_answered ≡ false)
          × ((k : ℕ)
              → find_job k w.db.jobs ≡ (
                  if k == 1
                  then some (cancelled 9000 (one_shot 1000 1 queue body))
                  else find_job k one_job.jobs))
          × ((later : ℕ)
              → is_claimable 7 later (cancelled 9000 (one_shot 1000 1 queue body)) ≡ false)))
    ⊎ ((is_cancellable JobStatus.scheduled ≡ false)
        × (cancel false 9000 1 one_job ≡ err (chronos_error validation_error)))
cancel-cases_example = cancel-cases false 9000 1 one_job refl

abbrev item : BatchJob
item = record {
  type = "echo";
  payload = none;
  run_at = none;
  idempotency_key = none;
  priority = some 4;
}

abbrev two_items : List (ℕ × BatchJob)
two_items = (11, item) ∷ (12, record item { idempotency_key = some "order-2" }) ∷ []

batched : (w : Written) × (create_batch true 1000 5 7 two_items db ≡ ok w)
unfolding create_batch insert_jobs insert_job is_valid_batch is_valid_item
batched = (_, refl)
