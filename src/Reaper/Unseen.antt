-- ===== src/Reaper/Unseen.antt =====
-- worker/src/heartbeat.ts: the reaper and jobs without an open execution. It finds jobs by the running
-- executions of a stale worker.
use chronos_job_scheduler.Prelude.{
  ℕ, ◌≡◌, refl, ◌∙◌, String, Bool, false, ◌&&◌, Option, List, [], ◌∷◌, map, ◌==◌, if◌then◌else◌,
  find_unique, find_unique-update_key, select, exists_where, update_where, includes,
  includes-append, delete_where, arith, Option-cases, inl, inr,
}
use chronos_job_scheduler.Schema.{Db, Job, JobExecution, Worker, is_in_flight}
use chronos_job_scheduler.Reaper.{
  unique, runs_for, runs_job, requeued, failed_by, requeue_job, requeue_jobs, orphaned_job_ids,
  claimed_jobs, all_job_ids, mark_dead, reap_worker, reap_workers, is_stale, reap,
}

abbrev pub find_job : ℕ → List Job → Option Job
find_job = find_unique (λ j. j.id)

-- Some execution of the job is open.
abbrev pub is_executing : ℕ → List JobExecution → Bool
is_executing id = exists_where (runs_job id)

pub includes-delete_where :
    (k x : ℕ) (xs : List ℕ)
    → includes k (delete_where (λ y. y == x) xs) ≡ (if k == x then false else includes k xs)
includes-delete_where k x [] = ground arith
includes-delete_where k x (y ∷ xs) = ground (arith, includes-delete_where k x xs)

pub includes-unique : (k : ℕ) (xs : List ℕ) → includes k (unique xs) ≡ includes k xs
includes-unique k [] = refl
includes-unique k (x ∷ xs) =
    ground (arith, includes-delete_where k x (unique xs), includes-unique k xs)

not_running-includes :
    (k worker : ℕ) (es : List JobExecution)
    → is_executing k es ≡ false
    → includes k (map (λ e. e.job_id) (select (runs_for worker) es)) ≡ false
not_running-includes k worker [] h = refl
not_running-includes k worker (e ∷ es) h = ground (arith, not_running-includes k worker es)

not_running-exists :
    (k worker : ℕ) (es : List JobExecution)
    → is_executing k es ≡ false
    → exists_where (λ e. e.job_id == k && runs_for worker e) es ≡ false
not_running-exists k worker [] h = refl
not_running-exists k worker (e ∷ es) h = ground (arith, not_running-exists k worker es)

not_running-claimed :
    (k worker : ℕ) (es : List JobExecution) (jobs : List Job)
    → is_executing k es ≡ false
    → includes k (
        map
          (λ (j : Job). j.id)
          (select
            (λ j.
              is_in_flight j.status && exists_where (λ e. e.job_id == j.id && runs_for worker e) es)
            jobs))
      ≡ false
not_running-claimed k worker es [] h = refl
not_running-claimed k worker es (j ∷ jobs) h =
    ground (arith, not_running-exists k worker es h, not_running-claimed k worker es jobs h)

all_job_ids_unseen :
    (k worker : ℕ) (db : Db)
    → is_executing k db.executions ≡ false
    → includes k (all_job_ids worker db) ≡ false
unfolding all_job_ids orphaned_job_ids claimed_jobs
all_job_ids_unseen k worker db h =
    includes-unique k _
    ∙ includes-append k (orphaned_job_ids worker db) _
    ∙ ground (
      arith,
      includes-unique k (map (λ e. e.job_id) (select (runs_for worker) db.executions)),
      not_running-includes k worker db.executions h,
      not_running-claimed k worker db.executions db.jobs h,
    )

still_not_running :
    (k id worker now : ℕ) (m : ℕ → String) (es : List JobExecution)
    → is_executing k es ≡ false
    → is_executing k (update_where (runs_job id) (failed_by m worker now) es) ≡ false
still_not_running k id worker now m [] h = refl
still_not_running k id worker now m (e ∷ es) h =
    ground (arith, still_not_running k id worker now m es)

module _ (m : ℕ → String) (up : Bool) (worker now k : ℕ) where
  pub requeue_job_others :
      (db : Db) (id : ℕ)
      → (k == id) ≡ false
      → find_job k (requeue_job m up worker now db id).jobs ≡ find_job k db.jobs
  unfolding requeue_job
  requeue_job_others db id other = elim (Option-cases (find_job id db.jobs)) [
    | inl e ↦ rw (e, requeue_job) refl
    | inr (j, e) ↦
        rw (e, requeue_job)
          (find_unique-update_key (λ (j : Job). j.id) k (λ i. i == id) (requeued now) db.jobs
              (λ j. refl)
            ∙ rw other refl)
  ]

  pub requeue_job-is_executing :
      (db : Db) (id : ℕ)
      → is_executing k db.executions ≡ false
      → is_executing k (requeue_job m up worker now db id).executions ≡ false
  unfolding requeue_job
  requeue_job-is_executing db id h = elim (Option-cases (find_job id db.jobs)) [
    | inl e ↦ rw (e, requeue_job) h
    | inr (j, e) ↦ rw (e, requeue_job) (still_not_running k id worker now m db.executions h)
  ]

  pub requeue_jobs_others :
      (ids : List ℕ) (db : Db)
      → includes k ids ≡ false
      → find_job k (requeue_jobs m up worker now ids db).jobs ≡ find_job k db.jobs
  unfolding requeue_jobs
  requeue_jobs_others [] db h = refl
  requeue_jobs_others (id ∷ ids) db h =
      requeue_jobs_others ids (requeue_job m up worker now db id) (ground arith)
      ∙ requeue_job_others db id (ground arith)

  pub requeue_jobs-is_executing :
      (ids : List ℕ) (db : Db)
      → is_executing k db.executions ≡ false
      → is_executing k (requeue_jobs m up worker now ids db).executions ≡ false
  unfolding requeue_jobs
  requeue_jobs-is_executing [] db h = h
  requeue_jobs-is_executing (id ∷ ids) db h =
      requeue_jobs-is_executing ids (requeue_job m up worker now db id)
        (requeue_job-is_executing db id h)

-- The row of the job, and that it has no open execution.
abbrev pub IsUnseen : ℕ → Option Job → Db → Type 0
IsUnseen k row db = (find_job k db.jobs ≡ row) × (is_executing k db.executions ≡ false)

reap_worker-IsUnseen :
    (m : ℕ → String) (up : Bool) (now k worker : ℕ) (row : Option Job) (db : Db)
    → IsUnseen k row db
    → IsUnseen k row (reap_worker m up now db worker)
unfolding reap_worker mark_dead
reap_worker-IsUnseen m up now k worker row db (found, idle) =
    go (orphaned_job_ids worker (mark_dead worker db)) refl
  where
    go :
        (ids : List ℕ)
        → orphaned_job_ids worker (mark_dead worker db) ≡ ids
        → IsUnseen k row (reap_worker m up now db worker)
    go [] e = rw (e, reap_worker) (found, idle)
    go (i ∷ is) e =
        rw (e, reap_worker)
          (
            requeue_jobs_others m up worker now k (all_job_ids worker (mark_dead worker db)) _
                  (all_job_ids_unseen k worker (mark_dead worker db) idle)
                ∙ found,
            requeue_jobs-is_executing m up worker now k (all_job_ids worker (mark_dead worker db)) _
                idle,
          )

pub reap_workers-IsUnseen :
    (m : ℕ → String) (up : Bool) (now k : ℕ) (row : Option Job) (ws : List ℕ) (db : Db)
    → IsUnseen k row db
    → IsUnseen k row (reap_workers m up now ws db)
unfolding reap_workers
reap_workers-IsUnseen m up now k row [] db h = h
reap_workers-IsUnseen m up now k row (w ∷ ws) db h =
    reap_workers-IsUnseen m up now k row ws _ (reap_worker-IsUnseen m up now k w row db h)

pub reap-IsUnseen :
    (m : ℕ → String) (up : Bool) (ttl now k : ℕ) (db : Db) {row : Option Job}
    → IsUnseen k row db
    → IsUnseen k row (reap m up ttl now db)
unfolding reap
reap-IsUnseen m up ttl now k db {row} h =
    reap_workers-IsUnseen m up now k row
      (map (λ (w : Worker). w.id) (select (is_stale ttl now) db.workers)) db h

-- A job with no open execution keeps its row through a reaper cycle, whatever its status and
-- whichever workers are stale.
pub reap_unseen :
    (m : ℕ → String) (up : Bool) (ttl now k : ℕ) (db : Db)
    → is_executing k db.executions ≡ false
    → find_job k (reap m up ttl now db).jobs ≡ find_job k db.jobs
reap_unseen m up ttl now k db idle =
    (reap-IsUnseen m up ttl now k db {row = find_job k db.jobs} (refl, idle)).0
