-- ===== src/Reaper/Requeue.antt =====
-- worker/src/heartbeat.ts: what the reaper does to the jobs of a worker that it reaps.
use chronos_job_scheduler.Prelude.{
  ℕ, ◌+◌, ◌≡◌, refl, ◌∙◌, String, Bool, true, false, ◌&&◌, some, List, [], ◌∷◌, map, ◌==◌,
  find_unique-update_key, select, exists_where, update_where, includes, includes-append, Distinct,
  delete_where, arith, Bool-cases, inl, inr, ==_self,
}
use chronos_job_scheduler.Schema.{Db, Job, JobStatus, JobExecution}
use chronos_job_scheduler.Reaper.{
  unique, runs_for, runs_job, requeued, failed_by, requeue_job, requeue_jobs, orphaned_job_ids,
  all_job_ids, mark_dead, reap_worker,
}
use chronos_job_scheduler.Reaper.Unseen.{
  find_job, is_executing, includes-delete_where, includes-unique, requeue_job_others,
  requeue_jobs_others, requeue_jobs-is_executing,
}

Distinct-delete_where :
    (x : ℕ) (xs : List ℕ) → Distinct xs → Distinct (delete_where (λ y. y == x) xs)
Distinct-delete_where x [] d = tt
Distinct-delete_where x (y ∷ xs) d =
    ground (arith, includes-delete_where y x xs, Distinct-delete_where x xs d.1)

pub unique-Distinct : (xs : List ℕ) → Distinct (unique xs)
unique-Distinct [] = tt
unique-Distinct (x ∷ xs) = (
  ground (arith, includes-delete_where x x (unique xs)),
  Distinct-delete_where x (unique xs) (unique-Distinct xs),
)

all_closed :
    (k worker now : ℕ) (m : ℕ → String) (es : List JobExecution)
    → is_executing k (update_where (runs_job k) (failed_by m worker now) es) ≡ false
all_closed k worker now m [] = refl
all_closed k worker now m (e ∷ es) = ground (arith, all_closed k worker now m es)

-- The row of the job is `queued`, with one attempt more and else as it was but for `updatedAt`, and none of
-- its executions is open.
abbrev pub IsRequeued : ℕ → Job → ℕ → Db → Type 0
IsRequeued now j k db =
    (find_job k db.jobs
      ≡ some (record j {
        status = JobStatus.queued;
        attempt_count = j.attempt_count + 1;
        updated_at = now;
      }))
    × (is_executing k db.executions ≡ false)

module _ (m : ℕ → String) (up : Bool) (worker now k : ℕ) (j : Job) where
  pub requeue_job-IsRequeued :
      (db : Db)
      → find_job k db.jobs ≡ some j
      → IsRequeued now j k (requeue_job m up worker now db k)
  unfolding requeue_job
  requeue_job-IsRequeued db found =
      rw (found, requeue_job)
        (
          find_unique-update_key (λ (j : Job). j.id) k (λ i. i == k) (requeued now) db.jobs
                (λ j. refl)
              ∙ rw (==_self k, found) refl,
          all_closed k worker now m db.executions,
        )

  requeue_jobs-IsRequeued :
      (ids : List ℕ) (db : Db)
      → find_job k db.jobs ≡ some j
      → Distinct ids
      → includes k ids ≡ true
      → IsRequeued now j k (requeue_jobs m up worker now ids db)
  unfolding requeue_jobs
  requeue_jobs-IsRequeued [] db found d h = cc
  requeue_jobs-IsRequeued (i ∷ ids) db found d h = elim (Bool-cases (k == i)) [
    | inl e ↦
        let same : i ≡ k = ground arith in
        let once = requeue_job-IsRequeued db found in
        let rest = rw same at d.0 in
        rw same (
          requeue_jobs_others m up worker now k ids _ rest ∙ once.0,
          requeue_jobs-is_executing m up worker now k ids _ once.1,
        )
    | inr e ↦
        requeue_jobs-IsRequeued ids (requeue_job m up worker now db i)
          (requeue_job_others m up worker now k db i e ∙ found) d.1 (ground arith)
  ]

-- An execution of the job by this worker is open.
abbrev pub is_orphaned : ℕ → ℕ → List JobExecution → Bool
is_orphaned worker k = exists_where (λ e. e.job_id == k && runs_for worker e)

orphaned-includes :
    (worker k : ℕ) (es : List JobExecution)
    → is_orphaned worker k es ≡ true
    → includes k (map (λ e. e.job_id) (select (runs_for worker) es)) ≡ true
orphaned-includes worker k [] h = cc
orphaned-includes worker k (e ∷ es) h = ground (arith, orphaned-includes worker k es)

-- A job with an open execution of the worker that is reaped is queued again with one attempt
-- more, whatever its status and its policy, and else as it was but for `updatedAt`, and none of its
-- executions is open afterwards.
pub reap_worker-IsRequeued :
    (m : ℕ → String) (up : Bool) (now worker k : ℕ) (db : Db) {j : Job}
    → find_job k db.jobs ≡ some j
    → is_orphaned worker k db.executions ≡ true
    → IsRequeued now j k (reap_worker m up now db worker)
unfolding reap_worker mark_dead all_job_ids orphaned_job_ids
reap_worker-IsRequeued m up now worker k db {j} found open_run =
    let marked = mark_dead worker db in
    let here : includes k (orphaned_job_ids worker marked) ≡ true =
      includes-unique k _ ∙ orphaned-includes worker k db.executions open_run in
    let all : includes k (all_job_ids worker marked) ≡ true =
      includes-unique k _ ∙ includes-append k (orphaned_job_ids worker marked) _ ∙ rw here refl in
    go (orphaned_job_ids worker marked) refl here all
  where
    go :
        (ids : List ℕ)
        → orphaned_job_ids worker (mark_dead worker db) ≡ ids
        → includes k (orphaned_job_ids worker (mark_dead worker db)) ≡ true
        → includes k (all_job_ids worker (mark_dead worker db)) ≡ true
        → IsRequeued now j k (reap_worker m up now db worker)
    go [] e here all = ground arith
    go (i ∷ is) e here all =
        rw (e, reap_worker)
          (requeue_jobs-IsRequeued m up worker now k j (all_job_ids worker (mark_dead worker db))
            (mark_dead worker db) found (unique-Distinct _) all)
