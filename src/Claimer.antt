-- ===== src/Claimer.antt =====
-- worker/src/claimer.ts: `claimJobs`, with the SQL that it sends. `locked` are the rows that other
-- transactions hold (SKIP LOCKED passes over them, before LIMIT counts), `rolled_back` says that the
-- transaction threw. Rows of equal rank, which ORDER BY leaves open, keep the order of the table.
-- The worker that claims is not recorded in any row, here as in the source.
pub mod Rows
pub mod Effects
pub mod Order
pub mod Limit
pub mod Locks
mod Tests
use chronos_job_scheduler.Prelude.{
  ℕ, ◌-◌, Bool, true, false, not, ◌&&◌, ◌||◌, List, [], ◌∷◌, map, ltb, leb, ◌==◌, if◌then◌else◌,
  take, includes, select, count_where, update_where, order_by, keys,
}
use chronos_job_scheduler.Schema.{Job, JobStatus, Db, is_queued, is_in_flight}

-- `{ queueId, status: { in: ["claimed", "running"] } }`
abbrev pub occupies : ℕ → Job → Bool
occupies queue_id j = j.queue_id == queue_id && is_in_flight j.status

unfoldable pub in_flight : ℕ → List Job → ℕ
in_flight queue_id jobs = count_where (occupies queue_id) jobs

-- `WHERE queue_id = … AND status = 'queued' AND run_at <= now()`
abbrev pub is_claimable : ℕ → ℕ → Job → Bool
is_claimable queue_id now j = j.queue_id == queue_id && is_queued j.status && leb j.run_at now

-- `ORDER BY priority DESC, run_at ASC`
abbrev pub ranks_before : Job → Job → Bool
ranks_before a b = ltb b.priority a.priority || (a.priority == b.priority && leb a.run_at b.run_at)

-- The rows that the `SELECT … FOR UPDATE SKIP LOCKED` may return, best first.
abbrev pub candidates : List ℕ → ℕ → ℕ → List Job → List Job
candidates locked queue_id now jobs =
    order_by ranks_before
      (select (λ j. is_claimable queue_id now j && not (includes j.id locked)) jobs)

unfoldable pub select_for_claim : List ℕ → ℕ → ℕ → ℕ → List Job → List ℕ
select_for_claim locked queue_id available now jobs =
    keys (λ j. j.id) (take available (candidates locked queue_id now jobs))

-- `UPDATE jobs SET status = 'claimed', updated_at = now() WHERE id = ANY(ids)`
pub mark_claimed : List ℕ → ℕ → List Job → List Job
mark_claimed ids now jobs =
    update_where (λ j. includes j.id ids)
      (λ j. record j { status = JobStatus.claimed; updated_at = now }) jobs

-- Step 2 of `claimJobs`; with no row there is no UPDATE, and a throw leaves the database alone.
unfoldable pub claim_transaction : Bool → List ℕ → ℕ → ℕ → ℕ → Db → List ℕ × Db
claim_transaction true locked queue_id available now db = ([], db)
claim_transaction false locked queue_id available now db =
    elim (select_for_claim locked queue_id available now db.jobs) [
      | [] ↦ ([], db)
      | i ∷ is ↦ (i ∷ is, record db { jobs = mark_claimed (i ∷ is) now db.jobs })
    ]

unfoldable pub claim_jobs : Bool → List ℕ → ℕ → ℕ → ℕ → Db → List ℕ × Db
unfolding in_flight claim_transaction
claim_jobs rolled_back locked queue_id concurrency_limit now db =
    let available = concurrency_limit - in_flight queue_id db.jobs in
    if available == 0
    then ([], db)
    else claim_transaction rolled_back locked queue_id available now db
