-- ===== src/Reaper/Steps.antt =====
-- worker/src/heartbeat.ts: a reaper cycle as a sequence of its two changes of the database.
use chronos_job_scheduler.Prelude.{ℕ, String, ◌≡◌, refl, Bool, List, [], ◌∷◌, map, select}
use chronos_job_scheduler.Schema.{Db, Worker}
use chronos_job_scheduler.Reaper.{
  is_stale, requeue_job, requeue_jobs, orphaned_job_ids, all_job_ids, mark_dead, reap_worker,
  reap_workers, reap,
}

-- What a worker's death and the requeueing of a job preserve, a cycle preserves.
module _ {ℓ} (P : Db → Type ℓ) (m : ℕ → String) (up : Bool) (now : ℕ)
    (marks : (worker : ℕ) (db : Db) → P db → P (mark_dead worker db))
    (requeues : (worker id : ℕ) (db : Db) → P db → P (requeue_job m up worker now db id)) where
  requeue_jobs-keeps :
      (worker : ℕ) (ids : List ℕ) (db : Db) → P db → P (requeue_jobs m up worker now ids db)
  unfolding requeue_jobs
  requeue_jobs-keeps worker [] db h = h
  requeue_jobs-keeps worker (id ∷ ids) db h =
      requeue_jobs-keeps worker ids (requeue_job m up worker now db id) (requeues worker id db h)

  reap_worker-keeps : (worker : ℕ) (db : Db) → P db → P (reap_worker m up now db worker)
  unfolding reap_worker
  reap_worker-keeps worker db h = go (orphaned_job_ids worker (mark_dead worker db)) refl
    where
      go :
          (ids : List ℕ)
          → orphaned_job_ids worker (mark_dead worker db) ≡ ids
          → P (reap_worker m up now db worker)
      go [] e = rw (reap_worker, e) (marks worker db h)
      go (i ∷ is) e =
          rw (reap_worker, e)
            (requeue_jobs-keeps worker (all_job_ids worker (mark_dead worker db))
              (mark_dead worker db) (marks worker db h))

  reap_workers-keeps : (ws : List ℕ) (db : Db) → P db → P (reap_workers m up now ws db)
  unfolding reap_workers
  reap_workers-keeps [] db h = h
  reap_workers-keeps (w ∷ ws) db h =
      reap_workers-keeps ws (reap_worker m up now db w) (reap_worker-keeps w db h)

  pub reap-keeps : (ttl : ℕ) (db : Db) → P db → P (reap m up ttl now db)
  unfolding reap
  reap-keeps ttl db h =
      reap_workers-keeps (map (λ (w : Worker). w.id) (select (is_stale ttl now) db.workers)) db h
