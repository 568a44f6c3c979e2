-- ===== src/Workers/Newest.antt =====
-- api/src/routes/workers.ts: which samples a worker's listing shows.
use chronos_job_scheduler.Prelude.{
  ℕ, ◌≤◌, ◌≡◌, sym, true, Option-cases, List, ◌==◌, arith, All, All-take, All-order_by, IsRanking,
  IsOrdered, IsOrdered-split, order_by-IsOrdered, select, select-All, take, drop, length,
  length-take, inl, inr,
}
use chronos_job_scheduler.Schema.{Db, WorkerHeartbeat}
use chronos_job_scheduler.Errors.{ok}
use chronos_job_scheduler.Workers.{find_worker, newest_first, heartbeats_of, list_heartbeats}

newest_first-IsRanking : IsRanking newest_first
newest_first-IsRanking = record {
  total = λ a b h. grind (arith, h);
  trans = λ a b c h k. grind (arith, h, k);
}

heartbeats_of-IsOrdered : (id : ℕ) (db : Db) → IsOrdered newest_first (heartbeats_of id db)
unfolding heartbeats_of
heartbeats_of-IsOrdered id db =
    order_by-IsOrdered newest_first newest_first-IsRanking
      (select (λ h. h.worker_id == id) db.heartbeats)

heartbeats_of-own : (id : ℕ) (db : Db) → All (λ h. (h.worker_id == id) ≡ true) (heartbeats_of id db)
unfolding heartbeats_of
heartbeats_of-own id db =
    All-order_by newest_first _ _ (select-All (λ h. h.worker_id == id) db.heartbeats)

-- The samples that are listed for a worker are at most 20, all its own, and none of its others is
-- newer than one of them.
pub list_heartbeats-newest :
    (id : ℕ) (db : Db) {shown : List WorkerHeartbeat}
    → list_heartbeats id db ≡ ok shown
    → (length shown ≤ 20)
      × All (λ h. (h.worker_id == id) ≡ true) shown
      × All (λ a. All (λ b. newest_first a b ≡ true) (drop 20 (heartbeats_of id db))) shown
unfolding list_heartbeats
list_heartbeats-newest id db {shown} answered = elim (Option-cases (find_worker id db)) [
  | inl missing ↦ let met = rw (list_heartbeats, missing) at answered in cc
  | inr (w, found) ↦
      let e : ok (take 20 (heartbeats_of id db)) ≡ ok shown =
        rw (list_heartbeats, found) at answered in
      let same : take 20 (heartbeats_of id db) ≡ shown = cc in
      rw (sym same) (
        omega (arith, length-take 20 (heartbeats_of id db)),
        All-take _ 20 (heartbeats_of id db) (heartbeats_of-own id db),
        IsOrdered-split newest_first 20 (heartbeats_of id db) (heartbeats_of-IsOrdered id db),
      )
]
