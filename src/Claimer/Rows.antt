-- ===== src/Claimer/Rows.antt =====
-- worker/src/claimer.ts: which rows the `SELECT … FOR UPDATE SKIP LOCKED` returns, in a table whose
-- identifiers are distinct.
use mathlib.Core.Path.{subst}
use chronos_job_scheduler.Prelude.{
  ℕ, ◌≤◌, ◌≡◌, true, false, not, ◌&&◌, List, Option, some, arith, ◌==◌, take, includes, length, All,
  Distinct, select, find_unique, keys, length-take, length-map, All-map, All-select, All-order_by,
  All-take, All-find_unique, includes-All, count_where-take, count_where-select,
  count_where-order_by, count_where-key_le, Distinct-of_counts,
}
use chronos_job_scheduler.Schema.{Job}
use chronos_job_scheduler.Claimer.{is_claimable, ranks_before, candidates, select_for_claim}

abbrev pub ids_of : List Job → List ℕ
ids_of = keys (λ j. j.id)

abbrev pub find_job : ℕ → List Job → Option Job
find_job = find_unique (λ j. j.id)

-- At most `available` rows.
pub length-select_for_claim :
    (locked : List ℕ) (queue_id available now : ℕ) (jobs : List Job)
    → length (select_for_claim locked queue_id available now jobs) ≤ available
unfolding select_for_claim
length-select_for_claim locked queue_id available now jobs =
    let rows = candidates locked queue_id now jobs in
    omega (arith, length-map (λ (j : Job). j.id) (take available rows), length-take available rows)

-- What the SELECT asks of a row.
abbrev pub IsFree : List ℕ → ℕ → ℕ → Job → Type 0
IsFree locked queue_id now j = (is_claimable queue_id now j ≡ true) × (includes j.id locked ≡ false)

abbrev pub IsRow : List Job → List ℕ → ℕ → ℕ → Job → Type 0
IsRow jobs locked queue_id now j = (find_job j.id jobs ≡ some j) × IsFree locked queue_id now j

module _ (locked : List ℕ) (queue_id now : ℕ) (jobs : List Job)
    (distinct : Distinct (ids_of jobs)) where
  pub candidates-IsRow : All (IsRow jobs locked queue_id now) (candidates locked queue_id now jobs)
  candidates-IsRow = All-order_by ranks_before _ _ (
      All-map _ _ _ (λ j h. ground arith)
        (All-select _ (λ j. is_claimable queue_id now j && not (includes j.id locked)) jobs
          (All-find_unique (λ j. j.id) jobs distinct)))

  -- Every selected identifier is that of a row of the table which is free to be claimed.
  pub select_for_claim_sound :
      (available i : ℕ)
      → includes i (select_for_claim locked queue_id available now jobs) ≡ true
      → (j : Job) × (find_job i jobs ≡ some j) × IsFree locked queue_id now j
  unfolding select_for_claim
  select_for_claim_sound available i h =
      let rows = take available (candidates locked queue_id now jobs) in
      let (j, same, row) =
        includes-All (λ j. j.id) (IsRow jobs locked queue_id now) i rows
          (All-take _ available _ candidates-IsRow) h in
      (j, subst (λ k. find_job k jobs ≡ some j) same row.0, row.1)

  -- No row is selected twice.
  pub select_for_claim-Distinct :
      (available : ℕ) → Distinct (select_for_claim locked queue_id available now jobs)
  unfolding select_for_claim
  select_for_claim-Distinct available =
      Distinct-of_counts (λ (j : Job). j.id) (take available (candidates locked queue_id now jobs))
        λ k.
          let here = λ (j : Job). j.id == k in
          let wanted = λ (j : Job). is_claimable queue_id now j && not (includes j.id locked) in
          omega (
            arith,
            count_where-take here available (candidates locked queue_id now jobs),
            count_where-order_by ranks_before here (select wanted jobs),
            count_where-select wanted here jobs,
            count_where-key_le (λ (j : Job). j.id) k jobs distinct,
          )
