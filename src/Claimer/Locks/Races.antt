-- ===== src/Claimer/Locks/Races.antt =====
-- worker/src/claimer.ts: which jobs the claims of an interleaving take.
use chronos_job_scheduler.Prelude.{◌⊎◌, leb, leb→le, ltb, ltb→lt, find_unique-key}
use chronos_job_scheduler.Prelude.{
  ℕ, ◌+◌, ◌≤◌, ◌≡◌, refl, Bool, true, false, none, some, List, [], ◌∷◌, ◌++◌, arith, ◌==◌,
  if◌then◌else◌, includes, Distinct, Bool-cases, inl, inr,
}
use chronos_job_scheduler.Schema.{Job, is_queued}
use chronos_job_scheduler.Claimer.{select_for_claim, mark_claimed}
use chronos_job_scheduler.Claimer.Rows.{
  ids_of, find_job, select_for_claim_sound, select_for_claim-Distinct,
}
use chronos_job_scheduler.Claimer.Effects.{find_job-mark_claimed, ids_of-mark_claimed}
use chronos_job_scheduler.Claimer.Locks.{
  Transaction, System, Step, select_rows, commit, rollback, locked_ids, close_transaction, held_by,
  step, run,
}

-- How often a number stands in a list.
abbrev pub tally : ℕ → List ℕ → ℕ
tally i [] = 0
tally i (x ∷ xs) = (if i == x then 1 else 0) + tally i xs

tally-append : (i : ℕ) (xs ys : List ℕ) → tally i (xs ++ ys) ≡ tally i xs + tally i ys
tally-append i [] ys = omega arith
tally-append i (x ∷ xs) ys = omega (arith, tally-append i xs ys)

tally-includes : (i : ℕ) (xs : List ℕ) → 1 ≤ tally i xs → includes i xs ≡ true
tally-includes i [] h = elim h [ ]
tally-includes i (x ∷ xs) h = ground (arith, tally-includes i xs)

includes-tally : (i : ℕ) (xs : List ℕ) → includes i xs ≡ true → 1 ≤ tally i xs
includes-tally i [] h = cc
includes-tally i (x ∷ xs) h = ground (arith, includes-tally i xs)

tally_zero : (i : ℕ) (xs : List ℕ) → includes i xs ≡ false → tally i xs ≡ 0
tally_zero i [] h = refl
tally_zero i (x ∷ xs) h = ground (arith, tally_zero i xs)

tally-Distinct : (i : ℕ) (xs : List ℕ) → Distinct xs → tally i xs ≤ 1
tally-Distinct i [] d = omega arith
tally-Distinct i (x ∷ xs) d = ground (arith, tally-Distinct i xs d.1, tally_zero x xs d.0)

-- Whether the row with this identifier is `queued`.
abbrev pub queued_now : ℕ → List Job → Bool
queued_now i jobs = elim (find_job i jobs) [ none ↦ false | some j ↦ is_queued j.status ]

-- Rows are locked by one transaction at most, and a row that was claimed is not locked again:
-- locked rows are queued, and claimed rows are not.
record IsConsistent (s : System) : Type 0 where
  distinct : Distinct (ids_of s.jobs)
  single : (i : ℕ) → tally i (locked_ids s.open_transactions) + tally i s.history ≤ 1
  locked_queued :
      (i : ℕ) → 1 ≤ tally i (locked_ids s.open_transactions) → queued_now i s.jobs ≡ true
  claimed_not_queued : (i : ℕ) → 1 ≤ tally i s.history → queued_now i s.jobs ≡ false

tally-close_transaction :
    (i w : ℕ) (ts : List Transaction)
    → tally i (locked_ids ts)
      ≡ tally i (held_by w ts) + tally i (locked_ids (close_transaction w ts))
tally-close_transaction i w [] = refl
tally-close_transaction i w (t ∷ ts) = elim (Bool-cases (t.worker == w)) [
  | inl e ↦ rw e (tally-append i t.ids (locked_ids ts))
  | inr e ↦ rw e (
      omega (
        arith,
        tally-append i t.ids (locked_ids ts),
        tally-append i t.ids (locked_ids (close_transaction w ts)),
        tally-close_transaction i w ts,
      ))
]

queued_now-mark_claimed :
    (ids : List ℕ) (now i : ℕ) (jobs : List Job)
    → queued_now i (mark_claimed ids now jobs)
      ≡ (if includes i ids then false else queued_now i jobs)
queued_now-mark_claimed ids now i jobs = ground (arith, find_job-mark_claimed ids now i jobs)

selected_row :
    (locked : List ℕ) (queue_id available now : ℕ) (jobs : List Job)
    → Distinct (ids_of jobs)
    → (i : ℕ) → includes i (select_for_claim locked queue_id available now jobs) ≡ true
    → (queued_now i jobs ≡ true) × (tally i locked ≡ 0)
selected_row locked queue_id available now jobs d i h =
    let (j, found, free) = select_for_claim_sound locked queue_id now jobs d available i h in
    let same = find_unique-key (λ (j : Job). j.id) i jobs found in
    (ground arith, tally_zero i locked (rw same at free.1))

module _ (s : System) (c : IsConsistent s) where
  unclaimed : (i : ℕ) → queued_now i s.jobs ≡ true → tally i s.history ≡ 0
  unclaimed i q = elim (Bool-cases (ltb 0 (tally i s.history))) [
    | inl e ↦ ground (arith, c.claimed_not_queued i (ltb→lt 0 _ e))
    | inr e ↦ ground arith
  ]

  select_rows-IsConsistent :
      (w queue_id available now : ℕ) → IsConsistent (step s (select_rows w queue_id available now))
  unfolding step
  select_rows-IsConsistent w queue_id available now =
      let locked = locked_ids s.open_transactions in
      let ids = select_for_claim locked queue_id available now s.jobs in
      record {
        distinct = c.distinct;
        single = λ i. elim (Bool-cases (includes i ids)) [
          | inl e ↦
              let row = selected_row locked queue_id available now s.jobs c.distinct i e in
              let once =
                tally-Distinct i ids
                  (select_for_claim-Distinct locked queue_id now s.jobs c.distinct available) in
              let not_before : tally i s.history ≡ 0 = unclaimed i row.0 in
              omega (arith, tally-append i ids locked, once, not_before, row.1)
          | inr e ↦ omega (arith, tally-append i ids locked, tally_zero i ids e, c.single i)
        ];
        locked_queued = λ i h. elim (Bool-cases (includes i ids)) [
          | inl e ↦ (selected_row locked queue_id available now s.jobs c.distinct i e).0
          | inr e ↦ c.locked_queued i (omega (arith, tally-append i ids locked, tally_zero i ids e))
        ];
        claimed_not_queued = c.claimed_not_queued;
      }

  commit-IsConsistent : (w now : ℕ) → IsConsistent (step s (commit w now))
  unfolding step
  commit-IsConsistent w now =
      let ids = held_by w s.open_transactions in
      record {
        distinct = rw (ids_of-mark_claimed ids now s.jobs) c.distinct;
        single = λ i. omega (
          arith,
          c.single i,
          tally-append i ids s.history,
          tally-close_transaction i w s.open_transactions,
        );
        locked_queued = λ i h. elim (Bool-cases (includes i ids)) [
          | inl e ↦ absurd (
              omega (
                arith,
                includes-tally i ids e,
                c.single i,
                tally-close_transaction i w s.open_transactions,
              ))
          | inr e ↦
              rw (queued_now-mark_claimed ids now i s.jobs, e)
                (c.locked_queued i (omega (arith, tally-close_transaction i w s.open_transactions)))
        ];
        claimed_not_queued = λ i h. elim (Bool-cases (includes i ids)) [
          | inl e ↦ rw (queued_now-mark_claimed ids now i s.jobs, e) refl
          | inr e ↦
              rw (queued_now-mark_claimed ids now i s.jobs, e)
                (c.claimed_not_queued i
                  (omega (arith, tally-append i ids s.history, tally_zero i ids e)))
        ];
      }

  rollback-IsConsistent : (w : ℕ) → IsConsistent (step s (rollback w))
  unfolding step
  rollback-IsConsistent w = record {
    distinct = c.distinct;
    single = λ i. omega (arith, c.single i, tally-close_transaction i w s.open_transactions);
    locked_queued =
        λ i h. c.locked_queued i (omega (arith, tally-close_transaction i w s.open_transactions));
    claimed_not_queued = c.claimed_not_queued;
  }

step-IsConsistent : (s : System) (a : Step) → IsConsistent s → IsConsistent (step s a)
step-IsConsistent s (select_rows w queue_id available now) c =
    select_rows-IsConsistent s c w queue_id available now
step-IsConsistent s (commit w now) c = commit-IsConsistent s c w now
step-IsConsistent s (rollback w) c = rollback-IsConsistent s c w

run-IsConsistent : (s : System) (steps : List Step) → IsConsistent s → IsConsistent (run s steps)
unfolding run
run-IsConsistent s [] c = c
run-IsConsistent s (a ∷ steps) c = run-IsConsistent (step s a) steps (step-IsConsistent s a c)

-- Before any claim: no transaction is open.
abbrev pub idle : List Job → System
idle jobs = record { jobs = jobs; open_transactions = []; history = [] }

-- From a table with unique identifiers, however the steps of any number of workers interleave:
-- no job is claimed twice or held by two open transactions, or claimed and held again, and a job
-- that was claimed is not `queued`.
pub run_claims_once :
    (jobs : List Job) (steps : List Step)
    → Distinct (ids_of jobs)
    → (i : ℕ)
    → let s = run (idle jobs) steps in
      (tally i (locked_ids s.open_transactions) + tally i s.history ≤ 1)
      × ((tally i s.history ≡ 0) ⊎ (queued_now i s.jobs ≡ false))
run_claims_once jobs steps d i =
    let start : IsConsistent (idle jobs) = record {
      distinct = d;
      single = λ k. omega arith;
      locked_queued = λ k h. absurd (omega arith);
      claimed_not_queued = λ k h. absurd (omega arith);
    } in
    let end = run-IsConsistent (idle jobs) steps start in
    (
      end.single i,
      elim (Bool-cases (queued_now i (run (idle jobs) steps).jobs)) [
        | inl e ↦ elim (Bool-cases (leb 1 (tally i (run (idle jobs) steps).history))) [
          | inl some_claim ↦ inr (end.claimed_not_queued i (leb→le _ _ some_claim))
          | inr no_claim ↦ inl (ground arith)
        ]
        | inr e ↦ inr e
      ],
    )
