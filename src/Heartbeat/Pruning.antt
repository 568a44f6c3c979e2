-- ===== src/Heartbeat/Pruning.antt =====
-- worker/src/heartbeat.ts: the DELETE of old heartbeats.
use chronos_job_scheduler.Prelude.{
  ℕ, ◌≤◌, ◌≡◌, refl, Bool, true, not, ◌&&◌, List, [], ◌∷◌, ◌==◌, arith, includes, length-take,
  length-map, Distinct, Distinct-of_counts, All-of_includes, take, select, delete_where, order_by,
  keys, count_where, count_where-take, count_where-order_by, count_where-select, count_where-key_le,
  count_where-key_zero, count_where-includes, count_where-includes_pos, Bool-cases, inl, inr,
}
use chronos_job_scheduler.Schema.{WorkerHeartbeat}
use chronos_job_scheduler.Heartbeat.{beats_for, newer, newest_ids, prune}

module _ (p q : WorkerHeartbeat → Bool) where
  count_where-kept :
      (hs : List WorkerHeartbeat)
      → count_where p (delete_where (λ h. p h && not (q h)) hs) ≤ count_where q hs
  count_where-kept [] = omega arith
  count_where-kept (h ∷ hs) =
      ground (arith, count_where-kept hs, Bool-cases (p h), Bool-cases (q h))

  select-kept :
      (hs : List WorkerHeartbeat)
      → select (λ h. not (p h)) (delete_where (λ h. p h && not (q h)) hs)
        ≡ select (λ h. not (p h)) hs
  select-kept [] = refl
  select-kept (h ∷ hs) = ground (arith, select-kept hs, Bool-cases (p h), Bool-cases (q h))

module _ (worker : ℕ) (hs : List WorkerHeartbeat)
    (distinct : Distinct (keys (λ (h : WorkerHeartbeat). h.id) hs)) where
  count-newest :
      (k : ℕ)
      → count_where
          (λ (h : WorkerHeartbeat). h.id == k)
          (take 100 (order_by newer (select (beats_for worker) hs)))
        ≤ count_where (λ (h : WorkerHeartbeat). h.id == k) hs
  count-newest k =
      let here = λ (h : WorkerHeartbeat). h.id == k in
      omega (
        arith,
        count_where-take here 100 (order_by newer (select (beats_for worker) hs)),
        count_where-order_by newer here (select (beats_for worker) hs),
        count_where-select (beats_for worker) here hs,
      )

  newest_ids-Distinct : Distinct (newest_ids worker hs)
  newest_ids-Distinct =
      Distinct-of_counts (λ (h : WorkerHeartbeat). h.id) _
        λ k.
          omega (
            arith,
            count-newest k,
            count_where-key_le (λ (h : WorkerHeartbeat). h.id) k hs distinct,
          )

  newest_ids-known :
      (k : ℕ)
      → includes k (newest_ids worker hs) ≡ true
      → includes k (keys (λ (h : WorkerHeartbeat). h.id) hs) ≡ true
  newest_ids-known k h = elim (Bool-cases (includes k (keys (λ (h : WorkerHeartbeat). h.id) hs))) [
    | inl e ↦ e
    | inr e ↦ ground (
      arith,
      count-newest k,
      count_where-key_zero (λ (h : WorkerHeartbeat). h.id) k hs e,
      count_where-includes_pos (λ (h : WorkerHeartbeat). h.id) k _ h,
    )
  ]

  -- In a table with unique identifiers, the DELETE leaves at most 100 heartbeats of the worker,
  -- and those of the other workers all and in their order.
  pub prune_bound :
      (count_where (beats_for worker) (prune worker hs) ≤ 100)
      × (select (λ h. not (beats_for worker h)) (prune worker hs)
          ≡ select (λ h. not (beats_for worker h)) hs)
  unfolding prune
  prune_bound =
      let newest = λ (h : WorkerHeartbeat). includes h.id (newest_ids worker hs) in
      let known =
        All-of_includes (λ k. includes k (keys (λ (h : WorkerHeartbeat). h.id) hs) ≡ true)
          (newest_ids worker hs) newest_ids-known in
      (
        omega (
          arith,
          count_where-kept (beats_for worker) newest hs,
          count_where-includes (λ (h : WorkerHeartbeat). h.id) (newest_ids worker hs) hs distinct
              newest_ids-Distinct known,
          length-map (λ (h : WorkerHeartbeat). h.id)
              (take 100 (order_by newer (select (beats_for worker) hs))),
          length-take 100 (order_by newer (select (beats_for worker) hs)),
        ),
        select-kept (beats_for worker) newest hs,
      )
