-- ===== src/Poller/Launches.antt =====
-- worker/src/poller.ts: which of the claimed jobs are started.
use chronos_job_scheduler.Prelude.{
  ℕ, ◌≡◌, ◌∙◌, refl, sym, ap, true, false, some, List, [], ◌∷◌, ◌++◌, includes, Distinct,
  append-nil, append_assoc,
}
use chronos_job_scheduler.Schema.{Db, Queue, Job, JobStatus}
use chronos_job_scheduler.Claimer.Rows.{ids_of, find_job}
use chronos_job_scheduler.Claimer.Effects.{
  claim_jobs-claimed, claimed_at, claim_jobs-Marked, ids_of-mark_claimed,
}
use chronos_job_scheduler.Poller.{
  Process, Turn, launch, launch_all, settle_all, launch_claimed, wait, claim_for, poll_queue,
  poll_queues, stop_poller,
}

launch_all-in_flight :
    (ids : List ℕ) (p : Process) → (launch_all ids p).in_flight ≡ p.in_flight ++ ids
unfolding launch_all launch
launch_all-in_flight [] p = sym (append-nil p.in_flight)
launch_all-in_flight (id ∷ ids) p =
    launch_all-in_flight ids (launch id p) ∙ append_assoc p.in_flight (id ∷ []) ids

-- Where the worker is not stopping when the claim returns, the jobs in flight are those left by
-- the wait, followed by the claimed jobs in the order of the claim.
pub poll_queue-launches :
    (t : Turn) (q : Queue) (p : Process) (db : Db)
    → (wait t p).stopping ≡ false
    → (poll_queue t q (p, db)).0.in_flight ≡ (wait t p).in_flight ++ (claim_for t q db).0
unfolding poll_queue launch_claimed
poll_queue-launches t q p db h = simp (h, launch_all-in_flight)

-- If a stop arrives during a claim that commits, on a table with unique identifiers, the jobs in flight are
-- those that had not settled, and each job that the claim took is `claimed`, and has no more open executions
-- than before.
pub poll_queue_stranded :
    (t : Turn) (q : Queue) (p : Process) (db : Db) (k : ℕ)
    → t.count_fails ≡ false
    → t.rolled_back ≡ false
    → t.stop_requested ≡ true
    → Distinct (ids_of (t.meanwhile db).jobs)
    → includes k (claim_for t q db).0 ≡ true
    → let (p', db') = poll_queue t q (p, db) in
      (p'.in_flight ≡ (settle_all t.settled p).in_flight)
      × (ids_of db'.jobs ≡ ids_of (t.meanwhile db).jobs)
      × (db'.executions ≡ (t.meanwhile db).executions)
      × ((j : Job) × (find_job k db'.jobs ≡ some j) × (j.status ≡ JobStatus.claimed))
unfolding poll_queue launch_claimed wait stop_poller
poll_queue_stranded t q p db k counted committed stop distinct taken =
    let claimed = rw (counted, committed) at taken in
    let (j, found, free, now_claimed) =
      claim_jobs-claimed t.locked q.id q.concurrency_limit t.now (t.meanwhile db) distinct k
        claimed in
    let (ids, marked) =
      claim_jobs-Marked t.locked q.id q.concurrency_limit t.now (t.meanwhile db) in
    (
      simp (stop, wait),
      rw (counted, committed)
          (ap (λ (d : Db). ids_of d.jobs) marked
            ∙ ids_of-mark_claimed _ t.now (t.meanwhile db).jobs),
      rw (counted, committed) (ap (λ (d : Db). d.executions) marked),
      (claimed_at t.now j, rw (counted, committed) now_claimed, refl),
    )

poll_queues-stopping :
    (qs : List (Turn × Queue)) (p : Process) (db : Db)
    → p.stopping ≡ true
    → poll_queues qs (p, db) ≡ (p, db)
unfolding poll_queues
poll_queues-stopping [] p db h = refl
poll_queues-stopping ((t, q) ∷ qs) p db h = rw h refl

poll_queues-runs :
    (t : Turn) (q : Queue) (qs : List (Turn × Queue)) (p : Process) (db : Db)
    → p.stopping ≡ false
    → poll_queues ((t, q) ∷ qs) (p, db) ≡ poll_queues qs (poll_queue t q (p, db))
unfolding poll_queues
poll_queues-runs t q qs p db runs = rw runs refl

poll_queue-stops :
    (t : Turn) (q : Queue) (p : Process) (db : Db)
    → t.stop_requested ≡ true
    → (poll_queue t q (p, db)).0.stopping ≡ true
unfolding poll_queue launch_claimed wait stop_poller
poll_queue-stops t q p db stop = rw stop refl

-- After a claim during which a stop arrived, the cycle asks for no further queue.
pub poll_queues_stopped :
    (t : Turn) (q : Queue) (qs : List (Turn × Queue)) (p : Process) (db : Db)
    → p.stopping ≡ false
    → t.stop_requested ≡ true
    → poll_queues ((t, q) ∷ qs) (p, db) ≡ poll_queue t q (p, db)
poll_queues_stopped t q qs p db runs stop =
    let (p', db') = poll_queue t q (p, db) in
    poll_queues-runs t q qs p db runs
    ∙ poll_queues-stopping qs p' db' (poll_queue-stops t q p db stop)
