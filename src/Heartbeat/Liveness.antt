-- ===== src/Heartbeat/Liveness.antt =====
-- worker/src/heartbeat.ts: the writer against the reaper.
use chronos_job_scheduler.Prelude.{
  ℕ, ◌+◌, ◌*◌, ◌≤◌, ◌≡◌, ◌≢◌, ==_self, refl, String, Bool, true, some, List, [], ◌∷◌, ◌==◌, arith,
  Distinct, exists_where, keys, find_unique-update_key, keys-update_where,
}
use chronos_job_scheduler.Schema.{Db, Worker}
use chronos_job_scheduler.Heartbeat.{
  WriteFault, touch_worker, write, written, update_fails, create_fails, prune_fails, publish_fails,
}
use chronos_job_scheduler.Reaper.{reap}
use chronos_job_scheduler.Reaper.Survivors.{find_worker, reap_survivor}

exists-found :
    (k : ℕ) (ws : List Worker) {w : Worker}
    → find_worker k ws ≡ some w
    → exists_where (λ (w : Worker). w.id == k) ws ≡ true
exists-found k [] h = cc
exists-found k (x ∷ xs) {w} h = ground (arith, exists-found k xs {w = w})

write-workers :
    (fault : WriteFault) (id worker beat active cpu : ℕ) (db : Db) {w : Worker}
    → fault ≢ update_fails
    → find_worker worker db.workers ≡ some w
    → (write fault id worker beat active cpu db).workers ≡ (touch_worker worker beat db).workers
unfolding write
write-workers update_fails id worker beat active cpu db updated found = elim (updated refl) [ ]
write-workers create_fails id worker beat active cpu db updated found =
    rw (write, exists-found worker db.workers found) refl
write-workers prune_fails id worker beat active cpu db updated found =
    rw (write, exists-found worker db.workers found) refl
write-workers publish_fails id worker beat active cpu db updated found =
    rw (write, exists-found worker db.workers found) refl
write-workers written id worker beat active cpu db updated found =
    rw (write, exists-found worker db.workers found) refl

-- A heartbeat of a worker with a row, in a table with unique identifiers, that gets past its
-- first call protects the worker: a reaper that runs within the TTL after it leaves the row as
-- the heartbeat wrote it, whichever later call of the writer threw.
pub reap-write :
    (fault : WriteFault) (message : ℕ → String) (up : Bool)
    (id worker beat active cpu ttl later : ℕ) (db : Db) {w : Worker}
    → fault ≢ update_fails
    → Distinct (keys (λ (w : Worker). w.id) db.workers)
    → find_worker worker db.workers ≡ some w
    → later ≤ beat + ttl * 1000
    → find_worker worker
        (reap message up ttl later (write fault id worker beat active cpu db)).workers
      ≡ some (record w { last_heartbeat_at = beat })
unfolding touch_worker
reap-write fault message up id worker beat active cpu ttl later db {w} updated distinct found soon =
    let touched = write-workers fault id worker beat active cpu db updated found in
    let beaten = λ (w : Worker). record w { last_heartbeat_at = beat } in
    reap_survivor message up ttl later worker _
      (rw
        (
          touched,
          keys-update_where (λ (w : Worker). w.id) (λ w. w.id == worker) beaten db.workers
              (λ w. refl),
        )
        distinct)
      (rw
        (
          touched,
          find_unique-update_key (λ (w : Worker). w.id) worker (λ k. k == worker) beaten db.workers
              (λ w. refl),
          ==_self worker,
          found,
        )
        refl)
      (ground (arith, soon))
