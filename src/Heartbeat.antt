-- ===== src/Heartbeat.antt =====
-- worker/src/heartbeat.ts: the heartbeat writer (`write` in `startHeartbeatWriter`). A call that throws
-- ends it, with what was done before; the function catches the error. In the DELETE's sub-select, rows
-- with one time stamp, which ORDER BY leaves open, keep the order of the table.
pub mod Pruning
pub mod Liveness
mod Tests
use chronos_job_scheduler.Prelude.{
  ℕ, Bool, true, false, not, ◌&&◌, List, [], ◌∷◌, ◌++◌, ◌==◌, leb, if◌then◌else◌, take, includes,
  select, update_where, delete_where, order_by, keys, exists_where,
}
use chronos_job_scheduler.Schema.{Db, Worker, WorkerHeartbeat, worker_heartbeat, publish}

-- The first call that throws, if any.
pub data WriteFault : Type 0 where
  written update_fails create_fails prune_fails publish_fails : WriteFault

abbrev pub beats_for : ℕ → WorkerHeartbeat → Bool
beats_for worker h = h.worker_id == worker

-- `ORDER BY timestamp DESC`
abbrev pub newer : WorkerHeartbeat → WorkerHeartbeat → Bool
newer a b = leb b.timestamp a.timestamp

-- `SELECT id … ORDER BY timestamp DESC LIMIT 100`
abbrev pub newest_ids : ℕ → List WorkerHeartbeat → List ℕ
newest_ids worker hs = keys (λ h. h.id) (take 100 (order_by newer (select (beats_for worker) hs)))

-- `DELETE … WHERE worker_id = … AND id NOT IN (…)`
pub prune : ℕ → List WorkerHeartbeat → List WorkerHeartbeat
prune worker hs =
    delete_where (λ h. beats_for worker h && not (includes h.id (newest_ids worker hs))) hs

pub touch_worker : ℕ → ℕ → Db → Db
touch_worker worker now db = record db {
  workers =
      update_where (λ w. w.id == worker) (λ w. record w { last_heartbeat_at = now }) db.workers;
}

abbrev pub sample : ℕ → ℕ → ℕ → ℕ → ℕ → WorkerHeartbeat
sample id worker now active_job_count cpu_load = record {
  id = id;
  worker_id = worker;
  timestamp = now;
  active_job_count = active_job_count;
  cpu_load = cpu_load;
}

pub add_sample : WorkerHeartbeat → Db → Db
add_sample h db = record db { heartbeats = db.heartbeats ++ h ∷ [] }

pub prune_samples : ℕ → Db → Db
unfolding prune
prune_samples worker db = record db { heartbeats = prune worker db.heartbeats }

-- `id` is that of the new sample. Prisma's update throws if the worker has no row.
pub write : WriteFault → ℕ → ℕ → ℕ → ℕ → ℕ → Db → Db
unfolding touch_worker add_sample prune_samples
write fault id worker now active_job_count cpu_load db =
    let touched = touch_worker worker now db in
    let sampled = add_sample (sample id worker now active_job_count cpu_load) touched in
    let pruned = prune_samples worker sampled in
    if exists_where (λ (w : Worker). w.id == worker) db.workers
    then elim fault [
      | update_fails ↦ db
      | create_fails ↦ touched
      | prune_fails ↦ sampled
      | publish_fails ↦ pruned
      | written ↦ publish true (worker_heartbeat worker active_job_count cpu_load) pruned
    ]
    else db
