-- ===== src/Executor/Branches.antt =====
-- worker/src/executor.ts: what `executeJob` leaves behind, on every branch.
use mathlib.Core.Path.{subst, sym}
use chronos_job_scheduler.Prelude.{
  ltb→lt, ℕ, ◌+◌, ◌≤◌, ◌<◌, ◌≡◌, refl, ◌≢◌, ◌⊎◌, ◌∙◌, String, false, Option, none, some, List, ◌==◌,
  ltb, find_unique-key, ==_self, arith, Bool-cases, Option-cases, inl, inr,
}
use chronos_job_scheduler.Schema.{Db, Job}
use chronos_job_scheduler.Executor.{
  LogEntry, Handle, Surroundings, Outcome, job_completed, job_dead_lettered, job_retrying,
  start_execution, unless_thrown, fail_job, settle_job, execute_job, has_letter,
}
use chronos_job_scheduler.Executor.Policy.{EffectivePolicy, resolve_policy}
use chronos_job_scheduler.Executor.Rows.{
  find_job, started, completed_row, retried_row, buried_row, find_job-start_execution,
  find_job-complete_job, find_job-retry_job, find_job-bury_job,
}
use chronos_job_scheduler.Retry.{calculate_delay}

-- The error that sends a run to the failure path: the handler's, else the success transaction's.
abbrev or_error : Option String → Option String → Option String
or_error (some e) other = some e
or_error none other = other

abbrev pub failure_of : Handle → Surroundings → Job → Option String
failure_of handle s job = or_error (handle job.type job.payload).1 s.success_error

-- The delay that the policy gives the next attempt.
abbrev pub delay_of : Surroundings → EffectivePolicy → Job → ℕ
delay_of s policy job =
    calculate_delay policy.strategy policy.base_delay_ms policy.max_delay_ms (job.attempt_count + 1)
      s.random

-- How a run ends whose transactions go through, by its failure and the attempts left.
abbrev pub Ends : Surroundings → EffectivePolicy → Job → Option String → Outcome × Db → Type 0
Ends s policy job none (outcome, db') =
    (outcome ≡ job_completed) × (find_job job.id db'.jobs ≡ some (completed_row s job))
Ends s policy job (some error) (outcome, db') =
    ((job.attempt_count + 1 < policy.max_attempts)
      × (outcome ≡ job_retrying (delay_of s policy job))
      × (find_job job.id db'.jobs ≡ some (retried_row s (delay_of s policy job) job job)))
    ⊎ ((policy.max_attempts ≤ job.attempt_count + 1)
        × (outcome ≡ job_dead_lettered)
        × (find_job job.id db'.jobs ≡ some (buried_row s job job)))

fail_job-Ends :
    (s : Surroundings) (policy : EffectivePolicy) (job : Job) (error : String)
    (buffer : List LogEntry) (db : Db)
    → find_job job.id db.jobs ≡ some (started s job)
    → s.failure_error ≡ none
    → has_letter job.id db.dead_letters ≡ false
    → Ends s policy job (some error) (fail_job s policy job error buffer db)
unfolding fail_job
fail_job-Ends s policy job error buffer db found ok free =
    elim (Bool-cases (ltb (job.attempt_count + 1) policy.max_attempts)) [
      | inl more ↦
          rw (more, ok)
            (inl (
              ltb→lt _ _ more,
              refl,
              find_job-retry_job s job job.id db policy _ error buffer
                  ∙ rw (==_self job.id, found) refl,
            ))
      | inr last ↦
          rw (last, free, ok)
            (inr (
              ground arith,
              refl,
              find_job-bury_job s job job.id db error buffer ∙ rw (==_self job.id, found) refl,
            ))
    ]

settle_job-Ends :
    (handle : Handle) (s : Surroundings) (policy : EffectivePolicy) (job : Job) (db : Db)
    → find_job job.id db.jobs ≡ some (started s job)
    → s.failure_error ≡ none
    → has_letter job.id db.dead_letters ≡ false
    → (r : List LogEntry × Option String) → handle job.type job.payload ≡ r
    → Ends s policy job (failure_of handle s job) (settle_job s policy job r db)
unfolding settle_job
settle_job-Ends handle s policy job db found ok free (buffer, some error) e =
    rw e (fail_job-Ends s policy job error buffer db found ok free)
settle_job-Ends handle s policy job db found ok free (buffer, none) e =
    elim (Option-cases s.success_error) [
      | inl none_thrown ↦
          rw (e, none_thrown)
            (refl, find_job-complete_job s job job.id db buffer ∙ rw (==_self job.id, found) refl)
      | inr (error, thrown) ↦
          rw (e, thrown) (fail_job-Ends s policy job error buffer db found ok free)
    ]

no_letter :
    (s : Surroundings) (job : Job) (worker : ℕ) (db : Db)
    → has_letter job.id db.dead_letters ≡ false
    → has_letter job.id (start_execution s job worker db).dead_letters ≡ false
unfolding start_execution
no_letter s job worker db h = h

-- A run of a job that exists and has no dead letter, whose failure transaction does not throw:
-- it ends `completed` if neither the handler nor the success transaction throws; else the job is
-- queued again, one attempt further and due after the policy's delay, if that leaves attempts;
-- else it is a dead letter.
pub execute_job-Ends :
    (handle : Handle) (s : Surroundings) (id worker : ℕ) (db : Db) {job : Job}
    → find_job id db.jobs ≡ some job
    → s.failure_error ≡ none
    → has_letter id db.dead_letters ≡ false
    → Ends s
        (resolve_policy db job)
        job
        (failure_of handle s job)
        (execute_job handle s id worker db)
unfolding execute_job
execute_job-Ends handle s id worker db {job} found ok free =
    let same : job.id ≡ id = find_unique-key (λ (j : Job). j.id) id db.jobs found in
    let here = subst (λ i. find_job i db.jobs ≡ some job) (sym same) found in
    rw (found, execute_job)
      (settle_job-Ends handle s (resolve_policy db job) job (start_execution s job worker db)
        (find_job-start_execution s job job.id db worker ∙ rw (==_self job.id, here) refl) ok
        (no_letter s job worker db (rw same free)) _ refl)

module _ (s : Surroundings) (policy : EffectivePolicy) (job : Job) (k : ℕ)
    (other : k ≢ job.id) where
  is_other : (k == job.id) ≡ false
  is_other = ground arith

  unless_thrown_others :
      (e : Option String) (outcome : Outcome) (db' db : Db)
      → find_job k db'.jobs ≡ find_job k db.jobs
      → find_job k (unless_thrown e outcome db' db).1.jobs ≡ find_job k db.jobs
  unless_thrown_others none outcome db' db h = h
  unless_thrown_others (some e) outcome db' db h = refl

  fail_job_others :
      (error : String) (buffer : List LogEntry) (db : Db)
      → find_job k (fail_job s policy job error buffer db).1.jobs ≡ find_job k db.jobs
  unfolding fail_job
  fail_job_others error buffer db =
      let retry = find_job-retry_job s job k db policy (delay_of s policy job) error buffer in
      let bury = find_job-bury_job s job k db error buffer in
      elim (Bool-cases (ltb (job.attempt_count + 1) policy.max_attempts)) [
        | inl more ↦
            rw more (unless_thrown_others s.failure_error _ _ db (retry ∙ rw is_other refl))
        | inr last ↦ rw last (elim (Bool-cases (has_letter job.id db.dead_letters)) [
          | inl taken ↦ rw taken refl
          | inr free ↦
              rw free (unless_thrown_others s.failure_error _ _ db (bury ∙ rw is_other refl))
        ])
      ]

  settle_job_others :
      (r : List LogEntry × Option String) (db : Db)
      → find_job k (settle_job s policy job r db).1.jobs ≡ find_job k db.jobs
  unfolding settle_job
  settle_job_others (buffer, some error) db = fail_job_others error buffer db
  settle_job_others (buffer, none) db = elim (Option-cases s.success_error) [
    | inl e ↦ rw e (find_job-complete_job s job k db buffer ∙ rw is_other refl)
    | inr (error, e) ↦ rw e (fail_job_others error buffer db)
  ]

-- A run changes the row of no other job.
pub execute_job_others :
    (handle : Handle) (s : Surroundings) (id worker k : ℕ) (db : Db)
    → k ≢ id
    → find_job k (execute_job handle s id worker db).1.jobs ≡ find_job k db.jobs
unfolding execute_job
execute_job_others handle s id worker k db other = elim (Option-cases (find_job id db.jobs)) [
  | inl e ↦ rw (e, execute_job) refl
  | inr (job, e) ↦
      let same : job.id ≡ id = find_unique-key (λ (j : Job). j.id) id db.jobs e in
      let apart : k ≢ job.id = rw same other in
      rw (e, execute_job)
        (settle_job_others s _ job k apart _ _
          ∙ find_job-start_execution s job k db worker
          ∙ rw (is_other s (resolve_policy db job) job k apart) refl)
]
