-- ===== src/Poller/Counts.antt =====
-- worker/src/poller.ts and the counter of worker/src/heartbeat.ts: the two counts of running jobs.
use chronos_job_scheduler.Prelude.{
  ℕ, ◌+◌, ◌≡◌, ◌∙◌, if_holds, refl, ap, true, false, List, [], ◌∷◌, arith, includes, length,
  length-append, Bool-cases, inl, inr, ==_self,
}
use chronos_job_scheduler.Schema.{Db, Queue}
use chronos_job_scheduler.Poller.{
  Process, Turn, Cycle, Round, remove_one, launch, settle, launch_all, settle_all, launch_claimed,
  wait, turns, sleep, stop_poller, poll_queue, poll_queues, poll_cycle, poll_rounds, start_poller,
  query_fails, query_answers,
}

abbrev pub IsCounted : Process → Type 0
IsCounted p = p.active_jobs ≡ length p.in_flight

length-remove_one :
    (k : ℕ) (ids : List ℕ) → includes k ids ≡ true → length (remove_one k ids) + 1 ≡ length ids
length-remove_one k [] h = cc
length-remove_one k (j ∷ js) h = ground (arith, length-remove_one k js)

settle-IsCounted : (id : ℕ) (p : Process) → IsCounted p → IsCounted (settle id p)
unfolding settle
settle-IsCounted id p h = elim (Bool-cases (includes id p.in_flight)) [
  | inl e ↦ rw e (omega (arith, h, length-remove_one id p.in_flight e))
  | inr e ↦ rw e h
]

launch_all-IsCounted : (ids : List ℕ) (p : Process) → IsCounted p → IsCounted (launch_all ids p)
unfolding launch_all launch
launch_all-IsCounted [] p h = h
launch_all-IsCounted (id ∷ ids) p h =
    launch_all-IsCounted ids (launch id p) (omega (arith, h, length-append p.in_flight (id ∷ [])))

settle_all-IsCounted : (ids : List ℕ) (p : Process) → IsCounted p → IsCounted (settle_all ids p)
unfolding settle_all
settle_all-IsCounted [] p h = h
settle_all-IsCounted (id ∷ ids) p h =
    settle_all-IsCounted ids (settle id p) (settle-IsCounted id p h)

wait-IsCounted : (t : Turn) (p : Process) → IsCounted p → IsCounted (wait t p)
unfolding wait stop_poller
wait-IsCounted t p h =
    if_holds IsCounted t.stop_requested _ _ (settle_all-IsCounted t.settled p h)
      (settle_all-IsCounted t.settled p h)

sleep-IsCounted : (r : Round) (p : Process) → IsCounted p → IsCounted (sleep r p)
unfolding stop_poller sleep
sleep-IsCounted r p h =
    if_holds IsCounted r.stop_requested _ _ (settle_all-IsCounted r.settled p h)
      (settle_all-IsCounted r.settled p h)

launch_claimed-IsCounted :
    (ids : List ℕ) (p : Process) → IsCounted p → IsCounted (launch_claimed ids p)
unfolding launch_claimed
launch_claimed-IsCounted ids p h =
    if_holds IsCounted p.stopping _ _ h (launch_all-IsCounted ids p h)

poll_queue-IsCounted :
    (t : Turn) (q : Queue) (s : Process × Db) → IsCounted s.0 → IsCounted (poll_queue t q s).0
unfolding poll_queue
poll_queue-IsCounted t q (p, db) h = launch_claimed-IsCounted _ (wait t p) (wait-IsCounted t p h)

poll_queues-IsCounted :
    (qs : List (Turn × Queue)) (s : Process × Db) → IsCounted s.0 → IsCounted (poll_queues qs s).0
unfolding poll_queues
poll_queues-IsCounted [] s h = h
poll_queues-IsCounted ((t, q) ∷ qs) (p, db) h =
    if_holds (λ (s : Process × Db). IsCounted s.0) p.stopping _ _ h
      (poll_queues-IsCounted qs (poll_queue t q (p, db)) (poll_queue-IsCounted t q (p, db) h))

poll_cycle-IsCounted : (c : Cycle) (s : Process × Db) → IsCounted s.0 → IsCounted (poll_cycle c s).0
unfolding poll_cycle
poll_cycle-IsCounted query_fails s h = h
poll_cycle-IsCounted (query_answers turn) (p, db) h =
    poll_queues-IsCounted (turns turn db.queues) (p, db) h

poll_rounds-IsCounted :
    (rs : List Round) (s : Process × Db) → IsCounted s.0 → IsCounted (poll_rounds rs s).0
unfolding poll_rounds
poll_rounds-IsCounted [] s h = h
poll_rounds-IsCounted (r ∷ rs) (p, db) h =
    if_holds (λ (s : Process × Db). IsCounted s.0) p.stopping _ _ h
      (poll_rounds-IsCounted rs _ (sleep-IsCounted r _ (poll_cycle-IsCounted r.cycle (p, db) h)))

-- If the number of active jobs is the number of jobs in flight, it is so after any run of the
-- loop, with jobs that settle, queries that throw and stops at any point.
pub start_poller-IsCounted :
    (rs : List Round) (s : Process × Db) → IsCounted s.0 → IsCounted (start_poller rs s).0
unfolding start_poller
start_poller-IsCounted rs (p, db) h = elim (Bool-cases p.running) [
  | inl e ↦ rw (start_poller, e) h
  | inr e ↦
      rw (start_poller, e)
        (poll_rounds-IsCounted rs (record p { running = true; stopping = false }, db) h)
]

settle_all-drains :
    (ids : List ℕ) (p : Process) → p.in_flight ≡ ids → (settle_all ids p).in_flight ≡ []
unfolding settle_all settle
settle_all-drains [] p e = e
settle_all-drains (id ∷ ids) p e = settle_all-drains ids (settle id p) (simp (e, ==_self, settle))

-- Once all jobs in flight have settled, in a process whose counter is right, none is in flight and the
-- counter is back at 0.
pub settle_all-in_flight :
    (p : Process)
    → IsCounted p
    → let settled = settle_all p.in_flight p in (settled.in_flight ≡ []) × (settled.active_jobs ≡ 0)
settle_all-in_flight p h =
    let empty = settle_all-drains p.in_flight p refl in
    let counted = settle_all-IsCounted p.in_flight p h in (empty, counted ∙ ap length empty)
