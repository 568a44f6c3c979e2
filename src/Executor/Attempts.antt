-- ===== src/Executor/Attempts.antt =====
-- worker/src/executor.ts with worker/src/claimer.ts: the attempts of a job whose handler always throws.
use mathlib.Core.Path.{subst, subst₂, subst₃}
use native.Mathlib.Nat.{add-zero, add-suc, suc-add}
use chronos_job_scheduler.Prelude.{
  le→not_ltb, lt→ltb, ℕ, suc, ◌+◌, ◌≤◌, ◌<◌, ◌≡◌, refl, sym, ◌∙◌, String, true, false, none, some,
  List, [], ◌∷◌, find_unique-key, ==_self, arith, All, length,
}
use chronos_job_scheduler.Schema.{Db, Job, JobStatus}
use chronos_job_scheduler.Claimer.{mark_claimed}
use chronos_job_scheduler.Claimer.Effects.{claimed_at, find_job-mark_claimed}
use chronos_job_scheduler.Executor.{
  Handle, Surroundings, job_dead_lettered, job_retrying, start_execution, retry_job, bury_job,
  fail_job, settle_job, execute_job, has_letter,
}
use chronos_job_scheduler.Executor.Policy.{EffectivePolicy, resolve_policy}
use chronos_job_scheduler.Executor.Rows.{
  find_job, started, retried_row, buried_row, find_job-start_execution, find_job-retry_job,
  find_job-bury_job,
}
use chronos_job_scheduler.Executor.Branches.{delay_of}

module _ (handle : Handle) (id worker : ℕ) where
  -- The job is claimed, and executed.
  pub attempt : Surroundings → Db → Db
  attempt s db =
      (execute_job handle s id worker
        (record db { jobs = mark_claimed (id ∷ []) s.started_at db.jobs })).1

  pub attempts : List Surroundings → Db → Db
  attempts [] db = db
  attempts (s ∷ ss) db = attempts ss (attempt s db)

module _ (handle : Handle) (s : Surroundings) (worker : ℕ) (db : Db) (job : Job) (error : String)
    (found : find_job job.id db.jobs ≡ some job)
    (fails : (handle job.type job.payload).1 ≡ some error) (ok : s.failure_error ≡ none) where
  execute_job-retry_job :
      job.attempt_count + 1 < (resolve_policy db job).max_attempts
      → execute_job handle s job.id worker db ≡ (
        job_retrying (delay_of s (resolve_policy db job) job),
        retry_job s
            (resolve_policy db job)
            job
            (delay_of s (resolve_policy db job) job)
            error
            (handle job.type job.payload).0
            (start_execution s job worker db),
      )
  unfolding execute_job settle_job fail_job
  execute_job-retry_job more =
      rw (found, execute_job) (rw (fails, settle_job) (rw (lt→ltb _ _ more, ok) refl))

  execute_job-bury_job :
      (resolve_policy db job).max_attempts ≤ job.attempt_count + 1
      → has_letter job.id db.dead_letters ≡ false
      → execute_job handle s job.id worker db ≡ (
        job_dead_lettered,
        bury_job s job error (handle job.type job.payload).0 (start_execution s job worker db),
      )
  unfolding execute_job settle_job fail_job start_execution
  execute_job-bury_job last free =
      rw (found, execute_job) (rw (fails, settle_job) (rw (le→not_ltb _ _ last, free, ok) refl))

-- The job is there, has used up `a` attempts, always fails, and is no dead letter.
pub record IsFailing (handle : Handle) (policy : EffectivePolicy) (id a : ℕ) (db : Db)
    : Type 0 where
  pub job : Job
  pub found : find_job id db.jobs ≡ some job
  pub used : job.attempt_count ≡ a
  pub in_force : resolve_policy db job ≡ policy
  pub error : String
  pub fails : (handle job.type job.payload).1 ≡ some error
  pub no_letter : has_letter id db.dead_letters ≡ false

-- The job is a dead letter after `a` attempts, with its row in the dead letter table.
pub record IsBuried (id a : ℕ) (db : Db) : Type 0 where
  pub job : Job
  pub found : find_job id db.jobs ≡ some job
  pub used : job.attempt_count ≡ a
  pub dead : job.status ≡ JobStatus.dead_letter
  pub letter : has_letter id db.dead_letters ≡ true

module _ (handle : Handle) (s : Surroundings) (worker : ℕ) (db : Db) (job : Job) (error : String)
    (found : find_job job.id db.jobs ≡ some job)
    (fails : (handle job.type job.payload).1 ≡ some error) (ok : s.failure_error ≡ none)
    (free : has_letter job.id db.dead_letters ≡ false) where
  found_started : find_job job.id (start_execution s job worker db).jobs ≡ some (started s job)
  found_started = find_job-start_execution s job job.id db worker ∙ rw (==_self job.id, found) refl

  retried-IsFailing :
      job.attempt_count + 1 < (resolve_policy db job).max_attempts
      → IsFailing handle
          (resolve_policy db job)
          job.id
          (suc job.attempt_count)
          (execute_job handle s job.id worker db).1
  unfolding resolve_policy retry_job start_execution
  retried-IsFailing more =
      let policy = resolve_policy db job in
      let delay_ms = delay_of s policy job in
      let buffer = (handle job.type job.payload).0 in
      rw (execute_job-retry_job handle s worker db job error found fails ok more) (record {
        job = retried_row s delay_ms job (started s job);
        found =
            find_job-retry_job s job job.id (start_execution s job worker db) policy delay_ms error
              buffer
            ∙ rw (==_self job.id, found_started) refl;
        used = omega arith;
        in_force = refl;
        error = error;
        fails = fails;
        no_letter = free;
      })

  bury_job-IsBuried :
      (resolve_policy db job).max_attempts ≤ job.attempt_count + 1
      → IsBuried job.id (suc job.attempt_count) (execute_job handle s job.id worker db).1
  unfolding bury_job
  bury_job-IsBuried last =
      let buffer = (handle job.type job.payload).0 in
      rw (execute_job-bury_job handle s worker db job error found fails ok last free) (record {
        job = buried_row s job (started s job);
        found =
            find_job-bury_job s job job.id (start_execution s job worker db) error buffer
            ∙ rw (==_self job.id, found_started) refl;
        used = omega arith;
        dead = refl;
        letter = rw (==_self job.id) refl;
      })

module _ (handle : Handle) (policy : EffectivePolicy) (id worker a : ℕ) (s : Surroundings)
    (ok : s.failure_error ≡ none) where
  claim : Db → Db
  claim db = record db { jobs = mark_claimed (id ∷ []) s.started_at db.jobs }

  claim-IsFailing :
      (db : Db) → IsFailing handle policy id a db → IsFailing handle policy id a (claim db)
  unfolding claim resolve_policy
  claim-IsFailing db f = record {
    job = claimed_at s.started_at f.job;
    found = find_job-mark_claimed (id ∷ []) s.started_at id db.jobs ∙ rw (==_self id, f.found) refl;
    used = f.used;
    in_force = f.in_force;
    error = f.error;
    fails = f.fails;
    no_letter = f.no_letter;
  }

  -- Such a job's identifier is the one that it was found under.
  own_id : (db : Db) (f : IsFailing handle policy id a db) → f.job.id ≡ id
  own_id db f = find_unique-key (λ (j : Job). j.id) id db.jobs f.found

  found_own :
      (db : Db) (f : IsFailing handle policy id a db) → find_job f.job.id db.jobs ≡ some f.job
  found_own db f = subst (λ i. find_job i db.jobs ≡ some f.job) (sym (own_id db f)) f.found

  free_own :
      (db : Db) (f : IsFailing handle policy id a db) → has_letter f.job.id db.dead_letters ≡ false
  free_own db f = subst (λ i. has_letter i db.dead_letters ≡ false) (sym (own_id db f)) f.no_letter

  execute_job-IsFailing :
      (db : Db)
      → suc a < policy.max_attempts
      → IsFailing handle policy id a db
      → IsFailing handle policy id (suc a) (execute_job handle s id worker db).1
  execute_job-IsFailing db more f =
      subst₃ (λ p i n. IsFailing handle p i (suc n) (execute_job handle s i worker db).1) f.in_force
        (own_id db f) f.used
        (retried-IsFailing handle s worker db f.job f.error (found_own db f) f.fails ok
          (free_own db f) (rw f.in_force (omega (arith, f.used))))

  execute_job-IsBuried :
      (db : Db)
      → policy.max_attempts ≤ suc a
      → IsFailing handle policy id a db
      → IsBuried id (suc a) (execute_job handle s id worker db).1
  execute_job-IsBuried db last f =
      subst₂ (λ i n. IsBuried i (suc n) (execute_job handle s i worker db).1) (own_id db f) f.used
        (bury_job-IsBuried handle s worker db f.job f.error (found_own db f) f.fails ok
          (free_own db f) (rw f.in_force (omega (arith, f.used))))

-- Each of the runs' last transactions goes through.
abbrev pub IsUndisturbed : List Surroundings → Type 0
IsUndisturbed = All (λ s. s.failure_error ≡ none)

module _ (handle : Handle) (policy : EffectivePolicy) (id worker : ℕ) where
  -- A job whose handler always throws, with attempts left, is still waiting for its next attempt
  -- after any smaller number of runs, with each run counted.
  pub attempts-IsFailing :
      (ss : List Surroundings) (a : ℕ) (db : Db)
      → IsUndisturbed ss
      → a + length ss < policy.max_attempts
      → IsFailing handle policy id a db
      → IsFailing handle policy id (a + length ss) (attempts handle id worker ss db)
  unfolding attempts attempt claim
  attempts-IsFailing [] a db u h f = rw add-zero f
  attempts-IsFailing (s ∷ ss) a db u h f =
      let g = claim-IsFailing handle policy id worker a s u.0 db f in
      let next = execute_job-IsFailing handle policy id worker a s u.0 _ (omega (arith, h)) g in
      rw (add-suc, ← suc-add) (attempts-IsFailing ss (suc a) _ u.1 (omega arith) next)

  -- A job that always fails, with `a` attempts used and attempts left, is a dead letter with a
  -- row in the dead letter table once it was claimed and executed as often as attempts were
  -- left, where no failure transaction throws; its attempt count is then the maximum of its
  -- policy.
  pub attempts-IsBuried :
      (ss : List Surroundings) (a : ℕ) (db : Db)
      → IsUndisturbed ss
      → a < policy.max_attempts
      → a + length ss ≡ policy.max_attempts
      → IsFailing handle policy id a db
      → IsBuried id policy.max_attempts (attempts handle id worker ss db)
  unfolding attempts attempt claim
  attempts-IsBuried [] a db u more h f = absurd (omega arith)
  attempts-IsBuried (s ∷ []) a db u more h f =
      let g = claim-IsFailing handle policy id worker a s u.0 db f in
      subst (λ n. IsBuried id n (attempts handle id worker (s ∷ []) db)) (omega arith)
        (execute_job-IsBuried handle policy id worker a s u.0 _ (omega arith) g)
  attempts-IsBuried (s ∷ t ∷ ss) a db u more h f =
      let g = claim-IsFailing handle policy id worker a s u.0 db f in
      attempts-IsBuried (t ∷ ss) (suc a) _ u.1 (omega arith) (omega arith)
        (execute_job-IsFailing handle policy id worker a s u.0 _ (omega arith) g)
