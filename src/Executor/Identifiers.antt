-- ===== src/Executor/Identifiers.antt =====
-- worker/src/executor.ts: a run neither adds nor deletes a job.
use chronos_job_scheduler.Prelude.{
  ltb, ℕ, ◌+◌, ◌≡◌, refl, ◌∙◌, String, none, some, List, inl, inr, Bool-cases, Option-cases, keys,
  keys-update_where,
}
use chronos_job_scheduler.Schema.{Db, Job}
use chronos_job_scheduler.Executor.{
  Option, Option, LogEntry, Handle, Surroundings, Outcome, start_execution, complete_job, retry_job,
  bury_job, unless_thrown, fail_job, settle_job, execute_job, has_letter,
}
use chronos_job_scheduler.Executor.Policy.{EffectivePolicy, resolve_policy}
use chronos_job_scheduler.Executor.Rows.{find_job}

abbrev pub job_ids : Db → List ℕ
job_ids db = keys (λ (j : Job). j.id) db.jobs

module _ (s : Surroundings) (policy : EffectivePolicy) (job : Job) where
  unless_thrown-ids :
      (e : Option String) (outcome : Outcome) (db' db : Db)
      → job_ids db' ≡ job_ids db
      → job_ids (unless_thrown e outcome db' db).1 ≡ job_ids db
  unless_thrown-ids none outcome db' db h = h
  unless_thrown-ids (some e) outcome db' db h = refl

  fail_job-ids :
      (error : String) (buffer : List LogEntry) (db : Db)
      → job_ids (fail_job s policy job error buffer db).1 ≡ job_ids db
  unfolding fail_job retry_job bury_job
  fail_job-ids error buffer db =
      elim (Bool-cases (ltb (job.attempt_count + 1) policy.max_attempts)) [
        | inl more ↦
            rw more (
              unless_thrown-ids s.failure_error _ _ db
                (keys-update_where _ _ _ db.jobs (λ j. refl)))
        | inr last ↦ rw last (elim (Bool-cases (has_letter job.id db.dead_letters)) [
          | inl taken ↦ rw taken refl
          | inr free ↦ rw free (
              unless_thrown-ids s.failure_error _ _ db
                (keys-update_where _ _ _ db.jobs (λ j. refl)))
        ])
      ]

  settle_job-ids :
      (r : List LogEntry × Option String) (db : Db)
      → job_ids (settle_job s policy job r db).1 ≡ job_ids db
  unfolding settle_job complete_job
  settle_job-ids (buffer, some error) db = fail_job-ids error buffer db
  settle_job-ids (buffer, none) db = elim (Option-cases s.success_error) [
    | inl e ↦ rw e (keys-update_where _ _ _ db.jobs (λ j. refl))
    | inr (error, e) ↦ rw e (fail_job-ids error buffer db)
  ]

  start_execution-ids :
      (worker : ℕ) (db : Db) → job_ids (start_execution s job worker db) ≡ job_ids db
  unfolding start_execution
  start_execution-ids worker db = keys-update_where _ _ _ db.jobs (λ j. refl)

pub execute_job-ids :
    (handle : Handle) (s : Surroundings) (id worker : ℕ) (db : Db)
    → job_ids (execute_job handle s id worker db).1 ≡ job_ids db
unfolding execute_job
execute_job-ids handle s id worker db = elim (Option-cases (find_job id db.jobs)) [
  | inl e ↦ rw (e, execute_job) refl
  | inr (job, e) ↦
      rw (e, execute_job)
        (settle_job-ids s (resolve_policy db job) job (handle job.type job.payload)
            (start_execution s job worker db)
          ∙ start_execution-ids s (resolve_policy db job) job worker db)
]
