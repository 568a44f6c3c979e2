-- ===== src/Lifecycle.antt =====
-- worker/src/index.ts: `shutdown` and the registration in `main`, with `waitForInFlight` of
-- worker/src/poller.ts. What the other parts of the system do to the database during the wait is a
-- function. The timers that are cleared and the connections that are closed leave no trace here.
pub mod Shutdown
mod Tests
use chronos_job_scheduler.Prelude.{
  ℕ, String, Bool, true, false, Option, none, some, List, [], ◌∷◌, ◌++◌, ◌==◌, if◌then◌else◌,
  update_where,
}
use chronos_job_scheduler.Schema.{Db, Worker, WorkerStatus}
use chronos_job_scheduler.Poller.{Process, stop_poller, settle_all}

-- The module's variables, and whether `process.exit` was called.
pub record Host : Type 0 where
  pub worker_id : Option ℕ
  pub shutting_down : Bool
  pub process : Process
  pub exited : Bool

-- How the race in `waitForInFlight` ends: all promises settle, or the timeout comes first.
pub data Waiting : Type 0 where
  all_settled : (Db → Db) → Waiting
  timed_out : List ℕ → (Db → Db) → Waiting

pub wait_for_in_flight : Waiting → Process × Db → Process × Db
wait_for_in_flight w (p, db) = elim p.in_flight [
  | [] ↦ (p, db)
  | id ∷ ids ↦ elim w [
    | all_settled meanwhile ↦ (settle_all p.in_flight p, meanwhile db)
    | timed_out settled meanwhile ↦ (settle_all settled p, meanwhile db)
  ]
]

-- `if (workerId)`, with the update's `catch`.
pub set_status : Bool → Option ℕ → WorkerStatus → Db → Db
set_status fails none status db = db
set_status fails (some id) status db = if fails then db else record db {
  workers = update_where (λ w. w.id == id) (λ w. record w { status = status }) db.workers;
}

-- The first argument says whether the update to `draining` throws, the second that to `dead`.
pub shutdown : Bool → Bool → Waiting → Host × Db → Host × Db
unfolding wait_for_in_flight set_status
shutdown draining_fails dead_fails w (h, db) =
    let drained = set_status draining_fails h.worker_id WorkerStatus.draining db in
    let (p, waited) = wait_for_in_flight w (stop_poller h.process, drained) in
    if h.shutting_down then (h, db) else (
      record { worker_id = h.worker_id; shutting_down = true; process = p; exited = true },
      set_status dead_fails h.worker_id WorkerStatus.dead waited,
    )

abbrev pub new_worker : ℕ → String → ℕ → ℕ → Worker
new_worker id hostname pid now = record {
  id = id;
  hostname = hostname;
  pid = pid;
  status = WorkerStatus.active;
  last_heartbeat_at = now;
}

-- Step 1 of `main`; where the row cannot be created the process exits.
pub register : Bool → ℕ → String → ℕ → ℕ → Host × Db → Host × Db
register true id hostname pid now (h, db) = (record h { exited = true }, db)
register false id hostname pid now (h, db) = (
  record h { worker_id = some id },
  record db { workers = db.workers ++ new_worker id hostname pid now ∷ [] },
)
