-- ===== src/Workers.antt =====
-- api/src/routes/workers.ts: the handlers, which show every worker to every user that `requireAuth` lets
-- through. The column `started_at` is left out.
pub mod Newest
mod Tests
use mathlib.Core.Option
use chronos_job_scheduler.Prelude.{
  ℕ, String, str_eq, Bool, true, false, ◌&&◌, ◌||◌, Option, none, some, List, [], ◌∷◌, map, ◌==◌,
  leb, ltb, if◌then◌else◌, select, count_where, find_unique, order_by, take,
}
use chronos_job_scheduler.Schema.{Db, Worker, WorkerStatus, WorkerHeartbeat, JobExecution}
use chronos_job_scheduler.Errors.{
  Result, ok, err, ◌>>=◌, or_fail, chronos_error, unexpected, not_found,
}
use chronos_job_scheduler.Pagination.{ParsedPagination, parse_pagination}
use chronos_job_scheduler.Listing.{Listing, listing}

-- A status's place in the enumeration, by which the column is ordered.
abbrev pub worker_rank : WorkerStatus → ℕ
worker_rank WorkerStatus.active = 0
worker_rank WorkerStatus.draining = 1
worker_rank WorkerStatus.dead = 2

abbrev pub worker_status_of_text : String → Option WorkerStatus
worker_status_of_text s =
    if str_eq s "active"
    then some WorkerStatus.active
    else if str_eq s "draining"
    then some WorkerStatus.draining
    else if str_eq s "dead"
    then some WorkerStatus.dead
    else none

-- `q.status ? { status: q.status as WorkerStatus } : {}`; Prisma refuses a text that is no status.
abbrev pub worker_filter : Option String → Result (Option WorkerStatus)
worker_filter none = ok none
worker_filter (some s) =
    if str_eq s "" then ok none else or_fail (Option.map some (worker_status_of_text s)) unexpected

abbrev pub is_worker_asked : Option WorkerStatus → Worker → Bool
is_worker_asked none w = true
is_worker_asked (some s) w = worker_rank s == worker_rank w.status

-- `orderBy: [{ status: 'asc' }, { lastHeartbeatAt: 'desc' }]`
abbrev pub worker_before : Worker → Worker → Bool
worker_before a b =
    ltb (worker_rank a.status) (worker_rank b.status)
    || (worker_rank a.status == worker_rank b.status && leb b.last_heartbeat_at a.last_heartbeat_at)

-- `orderBy: { timestamp: 'desc' }`
abbrev pub newest_first : WorkerHeartbeat → WorkerHeartbeat → Bool
newest_first a b = leb b.timestamp a.timestamp

pub heartbeats_of : ℕ → Db → List WorkerHeartbeat
heartbeats_of id db = order_by newest_first (select (λ h. h.worker_id == id) db.heartbeats)

-- A worker with the last of its samples.
pub record WorkerSummary : Type 0 where
  pub worker : Worker
  pub active_job_count : ℕ
  pub cpu_load : Option ℕ
  pub last_heartbeat_timestamp : Option ℕ

abbrev pub with_latest : Worker → List WorkerHeartbeat → WorkerSummary
with_latest w [] = record {
  worker = w;
  active_job_count = 0;
  cpu_load = none;
  last_heartbeat_timestamp = none;
}
with_latest w (h ∷ hs) = record {
  worker = w;
  active_job_count = h.active_job_count;
  cpu_load = some h.cpu_load;
  last_heartbeat_timestamp = some h.timestamp;
}

abbrev pub summarize_worker : Db → Worker → WorkerSummary
unfolding heartbeats_of
summarize_worker db w = with_latest w (take 1 (heartbeats_of w.id db))

-- GET /workers
pub list_workers :
    Option String → Option (List ℕ) → Option (List ℕ) → Db → Result (Listing WorkerSummary)
unfolding heartbeats_of
list_workers status page limit db = do
  asked ← worker_filter status
  ok (
      listing (summarize_worker db) (parse_pagination page limit)
        (order_by worker_before (select (is_worker_asked asked) db.workers)))

abbrev pub find_worker : ℕ → Db → Option Worker
find_worker id db = find_unique (λ (w : Worker). w.id) id db.workers

abbrev pub latest_started : JobExecution → JobExecution → Bool
latest_started a b = leb b.started_at a.started_at

pub record WorkerDetail : Type 0 where
  pub worker : Worker
  pub total_executions : ℕ
  pub recent_heartbeats : List WorkerHeartbeat
  pub recent_executions : List JobExecution

-- GET /workers/:id
pub get_worker : ℕ → Db → Result WorkerDetail
unfolding heartbeats_of
get_worker id db = do
  worker ← or_fail (find_worker id db) (chronos_error not_found)
  ok (record {
    worker = worker;
    total_executions = count_where (λ e. e.worker_id == id) db.executions;
    recent_heartbeats = take 5 (heartbeats_of id db);
    recent_executions =
        take 10 (order_by latest_started (select (λ e. e.worker_id == id) db.executions));
  })

-- GET /workers/:id/heartbeats
pub list_heartbeats : ℕ → Db → Result (List WorkerHeartbeat)
unfolding heartbeats_of
list_heartbeats id db = do
  worker ← or_fail (find_worker id db) (chronos_error not_found)
  ok (take 20 (heartbeats_of id db))
