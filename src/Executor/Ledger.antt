-- ===== src/Executor/Ledger.antt =====
-- worker/src/executor.ts: the execution row of a run.
use chronos_job_scheduler.Prelude.{
  ℕ, ◌+◌, ◌-◌, ◌≡◌, refl, String, false, Option, none, some, List, [], ◌∷◌, ltb, includes, keys,
  arith, Bool-cases, Option-cases, inl, inr, ==_self,
}
use chronos_job_scheduler.Schema.{Db, Job, JobExecution, ExecutionStatus, is_running}
use chronos_job_scheduler.Executor.{
  LogEntry, Handle, Surroundings, Outcome, rejected, start_execution, complete_job, retry_job,
  bury_job, close_execution, fail_job, settle_job, execute_job, has_letter,
}
use chronos_job_scheduler.Executor.Policy.{EffectivePolicy, resolve_policy}
use chronos_job_scheduler.Executor.Rows.{find_job}

abbrev pub execution_ids : List JobExecution → List ℕ
execution_ids = keys (λ e. e.id)

-- The row of this run: a new one, over.
abbrev pub IsOver : Surroundings → Job → ℕ → JobExecution → Type 0
IsOver s job worker e =
    (e.id ≡ s.execution_id)
    × (e.job_id ≡ job.id)
    × (e.worker_id ≡ worker)
    × (e.attempt_number ≡ job.attempt_count + 1)
    × (is_running e.status ≡ false)
    × (e.finished_at ≡ some s.ended_at)
    × (e.duration_ms ≡ some (s.ended_at - s.started_at))

close_execution_fresh :
    (s : Surroundings) (status : ExecutionStatus) (error : Option String) (rows : List JobExecution)
    → includes s.execution_id (execution_ids rows) ≡ false
    → close_execution s status error rows ≡ rows
close_execution_fresh s status error [] h = refl
close_execution_fresh s status error (e ∷ rows) h =
    ground (arith, close_execution_fresh s status error rows)

-- What the execution table has gained; where the last transaction threw, all is as the start left it.
abbrev pub Records : Surroundings → Job → ℕ → Db → Outcome × Db → Type 0
Records s job worker db (rejected _, db') = db' ≡ start_execution s job worker db
Records s job worker db (_, db') =
    (e : JobExecution) × (db'.executions ≡ e ∷ db.executions) × IsOver s job worker e

closed_row : Surroundings → Job → ℕ → ExecutionStatus → Option String → JobExecution
closed_row s job worker status error = record {
  id = s.execution_id;
  job_id = job.id;
  worker_id = worker;
  attempt_number = job.attempt_count + 1;
  started_at = s.started_at;
  finished_at = some s.ended_at;
  status = status;
  error_message = error;
  duration_ms = some (s.ended_at - s.started_at);
}

module _ (s : Surroundings) (policy : EffectivePolicy) (job : Job) (worker : ℕ) (db : Db)
    (fresh : includes s.execution_id (execution_ids db.executions) ≡ false) where
  close-start_execution :
      (status : ExecutionStatus) (error : Option String)
      → close_execution s status error (start_execution s job worker db).executions
        ≡ closed_row s job worker status error ∷ db.executions
  unfolding start_execution closed_row
  close-start_execution status error =
      rw (==_self s.execution_id, close_execution_fresh s status error db.executions fresh) refl

  row-IsOver :
      (status : ExecutionStatus) (error : Option String)
      → is_running status ≡ false
      → IsOver s job worker (closed_row s job worker status error)
  unfolding closed_row
  row-IsOver status error over = (refl, refl, refl, refl, over, refl, refl)

  recorded :
      (status : ExecutionStatus) (error : Option String)
      → is_running status ≡ false
      → (e : JobExecution) × (close_execution s status error
            (start_execution s job worker db).executions
          ≡ e ∷ db.executions)
        × IsOver s job worker e
  recorded status error over = (
    closed_row s job worker status error,
    close-start_execution status error,
    row-IsOver status error over,
  )

  fail_job-Records :
      (error : String) (buffer : List LogEntry)
      → Records s job worker db
          (fail_job s policy job error buffer (start_execution s job worker db))
  unfolding fail_job retry_job bury_job
  fail_job-Records error buffer =
      let row = recorded ExecutionStatus.failed (some error) refl in
      let letters = (start_execution s job worker db).dead_letters in
      elim (Bool-cases (ltb (job.attempt_count + 1) policy.max_attempts)) [
        | inl more ↦ elim (Option-cases s.failure_error) [
          | inl fine ↦ simp (more, fine) row
          | inr (e, thrown) ↦ simp (more, thrown) refl
        ]
        | inr last ↦ elim (Bool-cases (has_letter job.id letters)) [
          | inl taken ↦ rw (last, taken) refl
          | inr free ↦ elim (Option-cases s.failure_error) [
            | inl fine ↦ simp (last, free, fine) row
            | inr (e, thrown) ↦ simp (last, free, thrown) refl
          ]
        ]
      ]

  settle_job-Records :
      (r : List LogEntry × Option String)
      → Records s job worker db (settle_job s policy job r (start_execution s job worker db))
  unfolding settle_job complete_job
  settle_job-Records (buffer, some error) = fail_job-Records error buffer
  settle_job-Records (buffer, none) = elim (Option-cases s.success_error) [
    | inl fine ↦ simp (fine, settle_job) (recorded ExecutionStatus.completed none refl)
    | inr (e, thrown) ↦ simp (thrown, settle_job) (fail_job-Records e buffer)
  ]

-- A run of a job that exists, with a new execution identifier, adds one execution row in front of the
-- others, numbered one above the attempts used, with its end and duration and no longer running; but a
-- run that is rejected because its last transaction threw leaves the whole database as the start of the
-- run made it.
pub execute_job-Records :
    (handle : Handle) (s : Surroundings) (id worker : ℕ) (db : Db) {job : Job}
    → find_job id db.jobs ≡ some job
    → includes s.execution_id (execution_ids db.executions) ≡ false
    → Records s job worker db (execute_job handle s id worker db)
unfolding execute_job
execute_job-Records handle s id worker db {job} found fresh =
    rw (found, execute_job)
      (settle_job-Records s (resolve_policy db job) job worker db fresh
        (handle job.type job.payload))
