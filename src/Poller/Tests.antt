-- ===== src/Poller/Tests.antt =====
-- worker/src/poller.ts: the theorems at a worker with one job running and one to claim.
use chronos_job_scheduler.Prelude.{◌≡◌, refl, true, false, some, List, [], ◌∷◌}
use chronos_job_scheduler.Schema.{Db, Job, JobStatus}
use chronos_job_scheduler.Samples.{empty_db, job, queue}
use chronos_job_scheduler.Claimer.{claim_jobs, in_flight, claim_transaction, select_for_claim}
use chronos_job_scheduler.Claimer.Rows.{find_job}
use chronos_job_scheduler.Poller.{
  claim_jobs, Process, Turn, Round, query_fails, query_answers, poll_queues, start_poller,
  settle_all,
}
use chronos_job_scheduler.Poller.Counts.{IsCounted, start_poller-IsCounted}
use chronos_job_scheduler.Reaper.Unseen.{is_executing}
use chronos_job_scheduler.JobStates.{Operation, reaping, claiming, operate_all}
use chronos_job_scheduler.JobStates.Stranded.{poll_queues_stranded}

abbrev process : Process
process = record { running = false; stopping = false; in_flight = 1 ∷ []; active_jobs = 1 }

abbrev db : Db
db = record empty_db {
  jobs = job 1 JobStatus.running 0 0 ∷ job 2 JobStatus.queued 0 0 ∷ [];
  queues = queue ∷ [];
}

abbrev turn : Turn
turn = record {
  meanwhile = λ db. db;
  count_fails = false;
  rolled_back = false;
  locked = [];
  now = 100;
  settled = [];
  stop_requested = false;
}

abbrev stopped : Turn
stopped = record turn { stop_requested = true }

abbrev rounds : List Round
rounds =
    record { cycle = query_answers (λ id. turn); settled = 1 ∷ []; stop_requested = false }
    ∷ record { cycle = query_fails; settled = 2 ∷ []; stop_requested = true }
    ∷ []

start_poller-IsCounted_example : IsCounted (start_poller rounds (process, db)).0
start_poller-IsCounted_example = start_poller-IsCounted rounds (process, db) refl

-- The reaper runs, and another worker claims.
abbrev upkeep : List Operation
upkeep = reaping (λ worker. "died") true 60 100000 ∷ claiming [] 7 5 100010 ∷ []

poll_queues_stranded_example :
    let (p', db') = poll_queues ((stopped, queue) ∷ (turn, queue) ∷ []) (process, db) in
    (p'.in_flight ≡ (settle_all [] process).in_flight)
    × (is_executing 2 (operate_all upkeep db').executions ≡ false)
    × ((j : Job) × (find_job 2 (operate_all upkeep db').jobs ≡ some j)
        × (j.status ≡ JobStatus.claimed))
unfolding claim_jobs in_flight claim_transaction select_for_claim
poll_queues_stranded_example =
    poll_queues_stranded stopped queue ((turn, queue) ∷ []) process db 2 upkeep refl refl refl refl
      (refl, (refl, tt)) refl refl (refl, (refl, tt))
