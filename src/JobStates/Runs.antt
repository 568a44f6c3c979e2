-- ===== src/JobStates/Runs.antt =====
-- worker/src/executor.ts against the state machine of jobs.
use mathlib.Core.Path.{subst}
use chronos_job_scheduler.Prelude.{
  String, ◌+◌, String, String, ℕ, ◌≡◌, refl, ap, sym, ◌∙◌, Bool-cases, Option, none, some,
  Option-cases, List, ◌==◌, ==→eq, ==_self, ltb, arith, find_unique-key, inl, inr,
}
use chronos_job_scheduler.Schema.{Db, Job, JobStatus}
use chronos_job_scheduler.Executor.{
  Handle, Surroundings, LogEntry, start_execution, has_letter, fail_job, settle_job, execute_job,
}
use chronos_job_scheduler.Executor.Policy.{EffectivePolicy, resolve_policy}
use chronos_job_scheduler.Executor.Rows.{
  find_job, started, completed_row, retried_row, buried_row, find_job-start_execution,
  find_job-complete_job, find_job-retry_job, find_job-bury_job,
}
use chronos_job_scheduler.Executor.Branches.{delay_of, execute_job_others}
use chronos_job_scheduler.JobStates.{IsMoved, single, Actor, Move, rests, goes_on}

module _ (s : Surroundings) (policy : EffectivePolicy) (job i : Job) (db : Db)
    (found : find_job job.id db.jobs ≡ some i) (status : i.status ≡ JobStatus.running) where
  unmoved : IsMoved Actor.executor JobStatus.running job.id db
  unmoved = (i, found, rw status rests)

  fail_job-IsMoved :
      (error : String) (buffer : List LogEntry)
      → IsMoved Actor.executor JobStatus.running job.id (fail_job s policy job error buffer db).1
  unfolding fail_job
  fail_job-IsMoved error buffer =
      elim (Bool-cases (ltb (job.attempt_count + 1) policy.max_attempts)) [
        | inl more ↦
            rw (fail_job, more)
              (elim (Option-cases s.failure_error) [
                | inl through ↦ rw through (
                  retried_row s (delay_of s policy job) job i,
                  find_job-retry_job s job job.id db policy (delay_of s policy job) error buffer
                      ∙ rw (==_self job.id, found) refl,
                  single Move.backs_off,
                )
                | inr (thrown, e) ↦ rw e unmoved
              ])
        | inr last ↦ elim (Bool-cases (has_letter job.id db.dead_letters)) [
          | inl taken ↦ rw (fail_job, last, taken) unmoved
          | inr free ↦
              rw (fail_job, last, free)
                (elim (Option-cases s.failure_error) [
                  | inl through ↦ rw through (
                    buried_row s job i,
                    find_job-bury_job s job job.id db error buffer
                        ∙ rw (==_self job.id, found) refl,
                    single Move.dies,
                  )
                  | inr (thrown, e) ↦ rw e unmoved
                ])
        ]
      ]

  settle_job-IsMoved :
      (report : List LogEntry × Option String)
      → IsMoved Actor.executor JobStatus.running job.id (settle_job s policy job report db).1
  unfolding settle_job
  settle_job-IsMoved (buffer, some error) = fail_job-IsMoved error buffer
  settle_job-IsMoved (buffer, none) = elim (Option-cases s.success_error) [
    | inl through ↦
        rw (settle_job, through)
          (
            completed_row s i,
            find_job-complete_job s job job.id db buffer ∙ rw (==_self job.id, found) refl,
            single Move.completes,
          )
    | inr (error, e) ↦ rw (settle_job, e) (fail_job-IsMoved error buffer)
  ]

-- A run takes the row it finds through `running`.
run-IsMoved :
    (handle : Handle) (s : Surroundings) (i : Job) (worker : ℕ) (db : Db)
    → find_job i.id db.jobs ≡ some i
    → IsMoved Actor.executor JobStatus.running i.id (execute_job handle s i.id worker db).1
unfolding execute_job
run-IsMoved handle s i worker db there =
    let row = find_job-start_execution s i i.id db worker ∙ rw (==_self i.id, there) refl in
    rw (execute_job, there)
      (settle_job-IsMoved s (resolve_policy db i) i (started s i) (start_execution s i worker db)
        row refl (handle i.type i.payload))

after_start :
    (k : ℕ) (db : Db)
    → IsMoved Actor.executor JobStatus.running k db
    → IsMoved Actor.executor JobStatus.claimed k db
after_start k db (i, found, moves) = (i, found, goes_on Move.starts moves)

pub execute_job-IsMoved :
    (handle : Handle) (s : Surroundings) (id worker k : ℕ) (db : Db) {j : Job}
    → find_job k db.jobs ≡ some j
    → ((i : Job) × (find_job id db.jobs ≡ some i) × (i.status ≡ JobStatus.claimed))
    → IsMoved Actor.executor j.status k (execute_job handle s id worker db).1
execute_job-IsMoved handle s id worker k db {j} found (i, there, status) =
    let same : i.id ≡ id = find_unique-key (λ (j : Job). j.id) id db.jobs there in
    elim (Bool-cases (k == id)) [
      | inl here ↦
          let at : k ≡ id = ==→eq k id here in
          let one : i ≡ j = cc in
          let own : j.id ≡ id = find_unique-key (λ (j : Job). j.id) k db.jobs found ∙ at in
          let claimed : j.status ≡ JobStatus.claimed =
            ap (λ (x : Job). x.status) (sym one) ∙ status in
          let found' : find_job j.id db.jobs ≡ some j =
            ap (λ n. find_job n db.jobs) (own ∙ sym at) ∙ found in
          subst (λ n. IsMoved Actor.executor j.status k (execute_job handle s n worker db).1) own
            (subst (λ n. IsMoved Actor.executor j.status n (execute_job handle s j.id worker db).1)
              (own ∙ sym at)
              (subst (λ t. IsMoved Actor.executor t j.id (execute_job handle s j.id worker db).1)
                (sym claimed)
                (after_start j.id (execute_job handle s j.id worker db).1
                  (run-IsMoved handle s j worker db found'))))
      | inr other ↦
          (j, execute_job_others handle s id worker k db (λ e. ground arith) ∙ found, rests)
    ]
