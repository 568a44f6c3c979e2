-- ===== src/Lifecycle/Shutdown.antt =====
-- worker/src/index.ts: what a graceful shutdown leaves behind, and what the reaper then does.
use chronos_job_scheduler.Prelude.{
  ℕ, ◌≡◌, refl, ap, ◌∙◌, String, Bool, true, false, some, List, [], ◌∷◌, ◌==◌, arith, select,
  update_where, delete_where, Bool-cases, inl, inr,
}
use chronos_job_scheduler.Schema.{Db, Worker, WorkerStatus}
use chronos_job_scheduler.Poller.{stop_poller}
use chronos_job_scheduler.Reaper.{is_stale, reap}
use chronos_job_scheduler.Reaper.Survivors.{reap_none}
use chronos_job_scheduler.Lifecycle.{Host, Waiting, wait_for_in_flight, set_status, shutdown}

shutdown_again :
    (c d : Bool) (w : Waiting) (s : Host × Db) → s.0.shutting_down ≡ true → shutdown c d w s ≡ s
unfolding shutdown
shutdown_again c d w (h, db) e = simp (e, shutdown)

shutting_down-shutdown :
    (a b : Bool) (v : Waiting) (s : Host × Db) → (shutdown a b v s).0.shutting_down ≡ true
unfolding shutdown
shutting_down-shutdown a b v (h, db) = elim (Bool-cases h.shutting_down) [
  | inl e ↦ simp (e, shutdown)
  | inr e ↦ simp (e, shutdown)
]

-- A second shutdown changes nothing, however the first one went.
pub shutdown-shutdown :
    (a b c d : Bool) (v w : Waiting) (s : Host × Db)
    → shutdown c d w (shutdown a b v s) ≡ shutdown a b v s
shutdown-shutdown a b c d v w s =
    shutdown_again c d w (shutdown a b v s) (shutting_down-shutdown a b v s)

abbrev dead_row : Worker → Worker
dead_row w = record w { status = WorkerStatus.dead }

-- Rows that are dead by an update are not selected by a test that no dead row meets.
select-dead_row :
    (p : Worker → Bool) (id : ℕ) (ws : List Worker)
    → ((w : Worker) → p (dead_row w) ≡ false)
    → select p (delete_where (λ w. w.id == id) (update_where (λ w. w.id == id) dead_row ws)) ≡ []
    → select p (update_where (λ w. w.id == id) dead_row ws) ≡ []
select-dead_row p id [] k h = refl
select-dead_row p id (w ∷ ws) k h = elim (Bool-cases (w.id == id)) [
  | inl e ↦ rw (e, k w) (select-dead_row p id ws k (rw (e, e) at h))
  | inr e ↦ elim (Bool-cases (p w)) [
    | inl stale ↦ ground (arith, h)
    | inr fine ↦ rw (e, fine) (select-dead_row p id ws k (rw (e, e, fine) at h))
  ]
]

shutdown-workers :
    (draining_fails : Bool) (v : Waiting) (id : ℕ) (h : Host) (db : Db)
    → h.worker_id ≡ some id
    → h.shutting_down ≡ false
    → (ws : List Worker) × ((shutdown draining_fails false v (h, db)).1.workers
        ≡ update_where (λ w. w.id == id) dead_row ws)
unfolding shutdown set_status
shutdown-workers draining_fails v id h db known running =
    let waited =
      wait_for_in_flight v
        (stop_poller h.process, set_status draining_fails h.worker_id WorkerStatus.draining db) in
    (waited.1.workers, simp (running, known, shutdown, set_status))

-- After a first shutdown that marked its worker `dead`, however the wait ended, the reaper
-- leaves the whole database as it is at any later time at which no other worker is stale.
pub reap-shutdown :
    (message : ℕ → String) (up draining_fails : Bool) (ttl later id : ℕ) (v : Waiting) (h : Host)
    (db : Db)
    → h.worker_id ≡ some id
    → h.shutting_down ≡ false
    → select
        (is_stale ttl later)
        (delete_where (λ w. w.id == id) (shutdown draining_fails false v (h, db)).1.workers)
      ≡ []
    → reap message up ttl later (shutdown draining_fails false v (h, db)).1
      ≡ (shutdown draining_fails false v (h, db)).1
unfolding shutdown set_status
reap-shutdown message up draining_fails ttl later id v h db known running fresh =
    let ended = shutdown-workers draining_fails v id h db known running in
    reap_none message up ttl later _ (
      ap (select (is_stale ttl later)) ended.1
      ∙ select-dead_row (is_stale ttl later) id ended.0 (λ w. refl) (rw ended.1 at fresh))
