-- ===== src/Poller.antt =====
-- worker/src/poller.ts, with the counter of worker/src/heartbeat.ts: one worker process that claims
-- jobs, starts them, and stops. `Turn` holds what happens while the process waits for one claim: other
-- processes change the database, jobs that run settle, and a stop may be requested. Jobs in flight are
-- listed by their identifiers, one entry for each promise in the set.
pub mod Counts
pub mod Launches
mod Tests
use chronos_job_scheduler.Prelude.{
  ℕ, suc, ◌-◌, Bool, true, false, not, Option, none, some, List, [], ◌∷◌, ◌++◌, ◌==◌, if◌then◌else◌,
  includes, select,
}
use chronos_job_scheduler.Schema.{Db, Queue}
use chronos_job_scheduler.Claimer.{claim_jobs}

pub record Process : Type 0 where
  pub running : Bool
  pub stopping : Bool
  pub in_flight : List ℕ
  pub active_jobs : ℕ

-- `rolled_back` and `locked` are those of `claim_jobs`, at the time `now`; `count_fails` says that its
-- first query throws, which only the caller catches.
pub record Turn : Type 0 where
  pub meanwhile : Db → Db
  pub count_fails : Bool
  pub rolled_back : Bool
  pub locked : List ℕ
  pub now : ℕ
  pub settled : List ℕ
  pub stop_requested : Bool

-- `incrementActiveJobs`
abbrev pub increment_active_jobs : ℕ → ℕ
increment_active_jobs n = suc n

-- `Math.max(0, _activeJobCount - 1)`
abbrev pub decrement_active_jobs : ℕ → ℕ
decrement_active_jobs n = n - 1

abbrev pub remove_one : ℕ → List ℕ → List ℕ
remove_one k [] = []
remove_one k (j ∷ js) = if k == j then js else j ∷ remove_one k js

-- The two steps that a launched job has in the loop: its start, and the `finally` of its promise.
pub launch : ℕ → Process → Process
launch id p = record p {
  active_jobs = increment_active_jobs p.active_jobs;
  in_flight = p.in_flight ++ id ∷ [];
}

pub settle : ℕ → Process → Process
settle id p =
    if includes id p.in_flight
    then record p {
      active_jobs = decrement_active_jobs p.active_jobs;
      in_flight = remove_one id p.in_flight;
    }
    else p

pub launch_all : List ℕ → Process → Process
unfolding launch
launch_all [] p = p
launch_all (id ∷ ids) p = launch_all ids (launch id p)

pub settle_all : List ℕ → Process → Process
unfolding settle
settle_all [] p = p
settle_all (id ∷ ids) p = settle_all ids (settle id p)

-- `stopPoller`
unfoldable pub stop_poller : Process → Process
stop_poller p = record p { stopping = true }

-- What the process itself goes through while it waits.
pub wait : Turn → Process → Process
unfolding settle_all stop_poller
wait t p =
    let later = settle_all t.settled p in if t.stop_requested then stop_poller later else later

-- `claimJobs` with its caller's `catch`.
abbrev pub claim_for : Turn → Queue → Db → List ℕ × Db
claim_for t q db =
    if t.count_fails
    then ([], t.meanwhile db)
    else claim_jobs t.rolled_back t.locked q.id q.concurrency_limit t.now (t.meanwhile db)

-- The loop over the claimed jobs; nothing is awaited in it, so `stopping` keeps its value.
abbrev pub launch_claimed : List ℕ → Process → Process
unfolding launch_all
launch_claimed ids p = if p.stopping then p else launch_all ids p

-- The body of the loop over the queues.
pub poll_queue : Turn → Queue → Process × Db → Process × Db
unfolding wait
poll_queue t q (p, db) = let (ids, db') = claim_for t q db in (launch_claimed ids (wait t p), db')

-- The loop over the queues; there is a turn for each queue.
pub poll_queues : List (Turn × Queue) → Process × Db → Process × Db
unfolding poll_queue
poll_queues [] (p, db) = (p, db)
poll_queues ((t, q) ∷ qs) (p, db) =
    let rest = poll_queues qs (poll_queue t q (p, db)) in if p.stopping then (p, db) else rest

-- `findMany({ where: { isPaused: false } })`, with what each turn will meet.
abbrev pub turns : (ℕ → Turn) → List Queue → List (Turn × Queue)
turns turn [] = []
turns turn (q ∷ qs) = if q.is_paused then turns turn qs else (turn q.id, q) ∷ turns turn qs

-- What one cycle meets: a query for the queues that throws, or a turn for each queue.
pub data Cycle : Type 0 where
  query_fails : Cycle
  query_answers : (ℕ → Turn) → Cycle

-- `pollCycle`
pub poll_cycle : Cycle → Process × Db → Process × Db
unfolding poll_queues
poll_cycle query_fails s = s
poll_cycle (query_answers turn) (p, db) = poll_queues (turns turn db.queues) (p, db)

-- What the loop of `startPoller` meets: a cycle, and during the sleep after it, jobs that settle and
-- perhaps a stop.
pub record Round : Type 0 where
  pub cycle : Cycle
  pub settled : List ℕ
  pub stop_requested : Bool

abbrev pub sleep : Round → Process → Process
unfolding settle_all stop_poller
sleep r p =
    let later = settle_all r.settled p in if r.stop_requested then stop_poller later else later

-- The `while` loop, for as many rounds as are given.
pub poll_rounds : List Round → Process × Db → Process × Db
unfolding poll_cycle
poll_rounds [] s = s
poll_rounds (r ∷ rs) (p, db) =
    let (p', db') = poll_cycle r.cycle (p, db) in
    let rest = poll_rounds rs (sleep r p', db') in if p.stopping then (p, db) else rest

-- `startPoller`: nothing where a loop is running already.
pub start_poller : List Round → Process × Db → Process × Db
unfolding poll_rounds
start_poller rs (p, db) =
    if p.running
    then (p, db)
    else let (p', db') = poll_rounds rs (record p { running = true; stopping = false }, db) in
      (record p' { running = not p'.stopping }, db')
