-- ===== src/Claimer/Effects.antt =====
-- worker/src/claimer.ts: what `claimJobs` does to the tables.
use mathlib.Core.Option
use mathlib.Core.Option.{some-injective}
use chronos_job_scheduler.Prelude.{
  ℕ, ◌-◌, ◌+◌, ◌≡◌, refl, sym, ap, ◌∙◌, inl, inr, true, false, some, List, [], ◌∷◌, arith, ◌==◌,
  if◌then◌else◌, includes, length, All, Distinct, Bool-cases, ==→eq, All-map, All-of_includes,
  includes-found, All-find_unique, count_where-update, count_where-includes, find_unique-update_key,
  keys-update_where,
}
use chronos_job_scheduler.Schema.{Job, JobStatus, Db}
use chronos_job_scheduler.Claimer.{
  is_claimable, occupies, in_flight, select_for_claim, mark_claimed, claim_transaction, claim_jobs,
}
use chronos_job_scheduler.Claimer.Rows.{
  ids_of, find_job, IsFree, select_for_claim_sound, select_for_claim-Distinct,
}

-- The row as the UPDATE leaves it.
abbrev pub claimed_at : ℕ → Job → Job
claimed_at now j = record j { status = JobStatus.claimed; updated_at = now }

pub find_job-mark_claimed :
    (ids : List ℕ) (now i : ℕ) (jobs : List Job)
    → find_job i (mark_claimed ids now jobs)
      ≡ (if includes i ids then Option.map (claimed_at now) (find_job i jobs) else find_job i jobs)
unfolding mark_claimed
find_job-mark_claimed ids now i jobs =
    find_unique-update_key (λ (j : Job). j.id) i (λ k. includes k ids) (claimed_at now) jobs
      (λ j. refl)

pub ids_of-mark_claimed :
    (ids : List ℕ) (now : ℕ) (jobs : List Job) → ids_of (mark_claimed ids now jobs) ≡ ids_of jobs
unfolding mark_claimed
ids_of-mark_claimed ids now jobs =
    keys-update_where (λ (j : Job). j.id) _ (claimed_at now) jobs (λ j. refl)

mark_claimed-nil : (now : ℕ) (jobs : List Job) → mark_claimed [] now jobs ≡ jobs
unfolding mark_claimed
mark_claimed-nil now [] = refl
mark_claimed-nil now (j ∷ jobs) = ap (◌∷◌ j) (mark_claimed-nil now jobs)

-- A claim that marked these rows of the first database left the second.
abbrev pub Marked : Db → ℕ → List ℕ → List ℕ × Db → Type 0
Marked db now ids r = (r.0 ≡ ids) × (r.1 ≡ record db { jobs = mark_claimed ids now db.jobs })

nothing-Marked : (db : Db) (now : ℕ) → Marked db now [] ([], db)
nothing-Marked db now =
    (refl, ap (λ js. record db { jobs = js }) (sym (mark_claimed-nil now db.jobs)))

claim_transaction-Marked :
    (locked : List ℕ) (queue_id available now : ℕ) (db : Db) (ids : List ℕ)
    → select_for_claim locked queue_id available now db.jobs ≡ ids
    → Marked db now ids (claim_transaction false locked queue_id available now db)
unfolding claim_transaction
claim_transaction-Marked locked queue_id available now db [] e =
    rw (e, claim_transaction) (nothing-Marked db now)
claim_transaction-Marked locked queue_id available now db (i ∷ is) e =
    rw (e, claim_transaction) (refl, refl)

select_for_claim-zero :
    (locked : List ℕ) (queue_id now : ℕ) (jobs : List Job) {available : ℕ}
    → available ≡ 0
    → select_for_claim locked queue_id available now jobs ≡ []
unfolding select_for_claim
select_for_claim-zero locked queue_id now jobs e = rw e refl

-- What a claim returns is what it marked, and it touches no other table.
pub claim_jobs-Marked :
    (locked : List ℕ) (queue_id limit now : ℕ) (db : Db)
    → Marked db now
        (select_for_claim locked queue_id (limit - in_flight queue_id db.jobs) now db.jobs)
        (claim_jobs false locked queue_id limit now db)
unfolding claim_jobs
claim_jobs-Marked locked queue_id limit now db =
    let available = limit - in_flight queue_id db.jobs in
    elim (Bool-cases (available == 0)) [
      | inl full ↦
          rw (full, claim_jobs)
            (rw (select_for_claim-zero locked queue_id now db.jobs (==→eq available 0 full))
              (nothing-Marked db now))
      | inr free ↦
          rw (free, claim_jobs) (claim_transaction-Marked locked queue_id available now db _ refl)
    ]

enters_flight :
    (queue_id now : ℕ) (j : Job)
    → is_claimable queue_id now j ≡ true
    → (occupies queue_id j ≡ false) × (occupies queue_id (claimed_at now j) ≡ true)
enters_flight queue_id now j h = ground arith

module _ (locked : List ℕ) (queue_id now : ℕ) (jobs : List Job)
    (distinct : Distinct (ids_of jobs)) where
  claimed_row :
      (available i : ℕ)
      → let ids = select_for_claim locked queue_id available now jobs in
        includes i ids ≡ true
        → (j : Job) × (find_job i jobs ≡ some j)
          × IsFree locked queue_id now j
          × (find_job i (mark_claimed ids now jobs) ≡ some (claimed_at now j))
  claimed_row available i h =
      let ids = select_for_claim locked queue_id available now jobs in
      let (j, found, free) =
        select_for_claim_sound locked queue_id now jobs distinct available i h in
      (j, found, free, find_job-mark_claimed ids now i jobs ∙ rw (h, found) refl)

  other_row :
      (available i : ℕ)
      → let ids = select_for_claim locked queue_id available now jobs in
        includes i ids ≡ false → find_job i (mark_claimed ids now jobs) ≡ find_job i jobs
  other_row available i h =
      let ids = select_for_claim locked queue_id available now jobs in
      find_job-mark_claimed ids now i jobs ∙ rw h refl

  selected_keys :
      (available : ℕ)
      → All
          (λ i. includes i (ids_of jobs) ≡ true)
          (select_for_claim locked queue_id available now jobs)
  selected_keys available = All-of_includes _ _ (λ i h.
      let (j, found, free) =
        select_for_claim_sound locked queue_id now jobs distinct available i h in
      includes-found (λ (j : Job). j.id) i jobs found)

  -- Each selected row was not in flight, and is once it is marked.
  in_flight-mark_claimed :
      (available : ℕ)
      → let ids = select_for_claim locked queue_id available now jobs in
        in_flight queue_id (mark_claimed ids now jobs) ≡ in_flight queue_id jobs + length ids
  unfolding in_flight mark_claimed
  in_flight-mark_claimed available =
      let ids = select_for_claim locked queue_id available now jobs in
      count_where-update (λ j. includes j.id ids) (occupies queue_id) (claimed_at now) jobs
        (All-map _ _ jobs
          (λ j found chosen.
            let (k, found', free) =
              select_for_claim_sound locked queue_id now jobs distinct available j.id chosen in
            let same : k ≡ j = cc in enters_flight queue_id now j (rw (← same) free.0))
          (All-find_unique (λ (j : Job). j.id) jobs distinct))
      ∙ ap (◌+◌ (in_flight queue_id jobs)) (
          count_where-includes (λ (j : Job). j.id) ids jobs distinct
            (select_for_claim-Distinct locked queue_id now jobs distinct available)
            (selected_keys available))

module _ (locked : List ℕ) (queue_id limit now : ℕ) (db : Db)
    (distinct : Distinct (ids_of db.jobs)) where
  -- On a table with unique identifiers, a claim that commits returns only identifiers of rows
  -- that were queued, due, in this queue and not locked; such a row is `claimed` afterwards and
  -- otherwise as it was.
  pub claim_jobs-claimed :
      (i : ℕ)
      → let (ids, db') = claim_jobs false locked queue_id limit now db in
        includes i ids ≡ true
        → (j : Job) × (find_job i db.jobs ≡ some j)
          × IsFree locked queue_id now j
          × (find_job i db'.jobs ≡ some (claimed_at now j))
  claim_jobs-claimed i =
      let marked = claim_jobs-Marked locked queue_id limit now db in
      rw (marked.0, marked.1) (claimed_row locked queue_id now db.jobs distinct _ i)

  -- On a table with unique identifiers, a claim that commits leaves each row that it does not
  -- return as it was.
  pub claim_jobs_others :
      (i : ℕ)
      → let (ids, db') = claim_jobs false locked queue_id limit now db in
        includes i ids ≡ false → find_job i db'.jobs ≡ find_job i db.jobs
  claim_jobs_others i =
      let marked = claim_jobs-Marked locked queue_id limit now db in
      rw (marked.0, marked.1) (other_row locked queue_id now db.jobs distinct _ i)

  -- The jobs in flight grow by exactly the number of jobs that were claimed.
  pub in_flight-claim_jobs :
      let (ids, db') = claim_jobs false locked queue_id limit now db in
      in_flight queue_id db'.jobs ≡ in_flight queue_id db.jobs + length ids
  in_flight-claim_jobs =
      let marked = claim_jobs-Marked locked queue_id limit now db in
      rw (marked.0, marked.1) (in_flight-mark_claimed locked queue_id now db.jobs distinct _)
