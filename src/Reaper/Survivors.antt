-- ===== src/Reaper/Survivors.antt =====
-- worker/src/heartbeat.ts: the workers that the reaper leaves alone.
use chronos_job_scheduler.Prelude.{
  ℕ, ◌≡◌, ◌∙◌, refl, ap, String, Bool, false, Option, some, List, [], ◌∷◌, map, ◌==◌, arith,
  includes, Distinct, select, keys, find_unique, find_unique-update_key, Bool-cases, Option-cases,
  inl, inr,
}
use chronos_job_scheduler.Schema.{Db, Job, Worker, WorkerStatus}
use chronos_job_scheduler.Reaper.{
  mark_dead, requeue_job, requeue_jobs, reap_worker, reap_workers, reap, is_stale, orphaned_job_ids,
  all_job_ids,
}

abbrev pub find_worker : ℕ → List Worker → Option Worker
find_worker = find_unique (λ w. w.id)

includes-select_fresh :
    (p : Worker → Bool) (k : ℕ) (ws : List Worker)
    → includes k (keys (λ (w : Worker). w.id) ws) ≡ false
    → includes k (map (λ (w : Worker). w.id) (select p ws)) ≡ false
includes-select_fresh p k [] h = refl
includes-select_fresh p k (x ∷ xs) h =
    ground (arith, includes-select_fresh p k xs, Bool-cases (p x))

-- The row under a key that fails a test is not selected by it.
includes-select_not :
    (p : Worker → Bool) (k : ℕ) (ws : List Worker) {w : Worker}
    → Distinct (keys (λ (w : Worker). w.id) ws)
    → find_worker k ws ≡ some w
    → p w ≡ false
    → includes k (map (λ (w : Worker). w.id) (select p ws)) ≡ false
includes-select_not p k [] d found h = refl
includes-select_not p k (x ∷ xs) {w} d found h = elim (Bool-cases (x.id == k)) [
  | inl e ↦ ground (arith, includes-select_fresh p x.id xs d.0, Bool-cases (p x))
  | inr e ↦ ground (arith, includes-select_not p k xs {w = w} d.1, Bool-cases (p x))
]

requeue_job-workers :
    (message : ℕ → String) (up : Bool) (worker now : ℕ) (db : Db) (id : ℕ)
    → (requeue_job message up worker now db id).workers ≡ db.workers
unfolding requeue_job
requeue_job-workers message up worker now db id =
    elim (Option-cases (find_unique (λ (j : Job). j.id) id db.jobs)) [
      | inl e ↦ rw (requeue_job, e) refl
      | inr (j, e) ↦ rw (requeue_job, e) refl
    ]

requeue_jobs-workers :
    (message : ℕ → String) (up : Bool) (worker now : ℕ) (ids : List ℕ) (db : Db)
    → (requeue_jobs message up worker now ids db).workers ≡ db.workers
unfolding requeue_jobs
requeue_jobs-workers message up worker now [] db = refl
requeue_jobs-workers message up worker now (id ∷ ids) db =
    requeue_jobs-workers message up worker now ids (requeue_job message up worker now db id)
    ∙ requeue_job-workers message up worker now db id

reap_worker-workers :
    (message : ℕ → String) (up : Bool) (now : ℕ) (db : Db) (worker : ℕ)
    → (reap_worker message up now db worker).workers ≡ (mark_dead worker db).workers
unfolding reap_worker
reap_worker-workers message up now db worker =
    go (orphaned_job_ids worker (mark_dead worker db)) refl
  where
    go :
        (ids : List ℕ)
        → orphaned_job_ids worker (mark_dead worker db) ≡ ids
        → (reap_worker message up now db worker).workers ≡ (mark_dead worker db).workers
    go [] e = rw (reap_worker, e) refl
    go (i ∷ is) e =
        rw (reap_worker, e)
          (requeue_jobs-workers message up worker now (all_job_ids worker (mark_dead worker db))
            (mark_dead worker db))

reap_workers-others :
    (message : ℕ → String) (up : Bool) (now k : ℕ) (ws : List ℕ) (db : Db)
    → includes k ws ≡ false
    → find_worker k (reap_workers message up now ws db).workers ≡ find_worker k db.workers
unfolding reap_workers mark_dead
reap_workers-others message up now k [] db h = refl
reap_workers-others message up now k (w ∷ ws) db h = elim (Bool-cases (k == w)) [
  | inl e ↦ ground (arith, h)
  | inr e ↦
      let later =
        reap_workers-others message up now k ws (reap_worker message up now db w) (ground arith) in
      let here = reap_worker-workers message up now db w in
      later
      ∙ ap (find_worker k) here
      ∙ find_unique-update_key (λ (w : Worker). w.id) k (λ k. k == w)
          (λ w. record w { status = WorkerStatus.dead }) db.workers (λ w. refl)
      ∙ rw e refl
]

-- In a table with unique identifiers, the reaper leaves the row of a worker that is not stale as
-- it is.
pub reap_survivor :
    (message : ℕ → String) (up : Bool) (ttl now k : ℕ) (db : Db) {w : Worker}
    → Distinct (keys (λ (w : Worker). w.id) db.workers)
    → find_worker k db.workers ≡ some w
    → is_stale ttl now w ≡ false
    → find_worker k (reap message up ttl now db).workers ≡ some w
unfolding reap
reap_survivor message up ttl now k db distinct found fresh =
    reap_workers-others message up now k _ db
      (includes-select_not (is_stale ttl now) k db.workers distinct found fresh)
    ∙ found

-- Without a stale worker the reaper changes nothing.
pub reap_none :
    (message : ℕ → String) (up : Bool) (ttl now : ℕ) (db : Db)
    → select (is_stale ttl now) db.workers ≡ []
    → reap message up ttl now db ≡ db
unfolding reap reap_workers
reap_none message up ttl now db h = rw (reap, h) refl
