-- ===== src/JobStates/Accounts.antt =====
-- worker/src/claimer.ts, worker/src/executor.ts, worker/src/heartbeat.ts and api/src/routes/jobs.ts: the
-- open executions and the jobs that they belong to.
use chronos_job_scheduler.Prelude.{
  Bool, ℕ, ◌≡◌, ◌≢◌, refl, ap, ◌∙◌, true, false, inl, inr, Bool-cases, Option-cases, some, List, [],
  ◌∷◌, All, ◌==◌, ==→eq, arith, includes, Distinct, or_false, keys-update_where, find_unique-key,
  ==_self,
}
use chronos_job_scheduler.Schema.{Db, Job, JobStatus, JobExecution, is_running, same_status}
use chronos_job_scheduler.Claimer.{claim_jobs}
use chronos_job_scheduler.Claimer.Rows.{ids_of}
use chronos_job_scheduler.Claimer.Effects.{claim_jobs-claimed, claim_jobs_others, claim_jobs-Marked}
use chronos_job_scheduler.Executor.{Handle, Surroundings, execute_job}
use chronos_job_scheduler.Executor.Rows.{find_job}
use chronos_job_scheduler.Executor.Branches.{execute_job_others}
use chronos_job_scheduler.Executor.Ledger.{execution_ids, execute_job-Records}
use chronos_job_scheduler.Executor.Open.{recorded-IsIdleOrRunning}
use chronos_job_scheduler.Reaper.Runs.{IsIdleOrRunning}
use chronos_job_scheduler.Reaper.Unseen.{is_executing}
use chronos_job_scheduler.Jobs.{retry, cancel, is_retryable, is_cancellable}
use chronos_job_scheduler.Jobs.Transitions.{retry-cases, cancel-cases}
use chronos_job_scheduler.JobStates.{Accounted, is_accounted, or_same}
use chronos_job_scheduler.JobStates.Reaping.{accounted-running, same_status-running}
use chronos_job_scheduler.JobStates.Refinement.{claimable-queued}

pub idle_or_running : (k : ℕ) (db : Db) → Accounted db → IsIdleOrRunning k db
idle_or_running k db h = elim (Bool-cases (is_executing k db.executions)) [
  | inr idle ↦ inl idle
  | inl executing ↦
      let running = accounted-running k db.jobs db.executions h executing in
      elim (Option-cases (find_job k db.jobs)) [
        | inl missing ↦ let no = rw missing at running in cc
        | inr (j, found) ↦ inr (j, found, same_status-running j.status (rw found at running))
      ]
]

accounted_rows :
    (jobs : List Job) (es : List JobExecution)
    → ((k : ℕ)
        → is_executing k es ≡ true
        → or_false (λ (j : Job). same_status JobStatus.running j.status) (find_job k jobs) ≡ true)
    → All (λ e. is_accounted jobs e ≡ true) es
accounted_rows jobs [] h = tt
accounted_rows jobs (e ∷ es) h = (
  elim (Bool-cases (is_running e.status)) [
    | inr over ↦ rw over refl
    | inl opened ↦ rw (opened, h e.job_id (rw (==_self e.job_id, opened) refl)) refl
  ],
  accounted_rows jobs es (λ k executing. h k (ground arith)),
)

pub all-Accounted : (db : Db) → ((k : ℕ) → IsIdleOrRunning k db) → Accounted db
all-Accounted db h =
    accounted_rows db.jobs db.executions λ k executing. elim (h k) [
      | inl idle ↦ cc
      | inr (j, found, running) ↦ rw (found, running) refl
    ]

-- The executions stay as they are, and so does the row of a running job.
unchanged :
    (k : ℕ) (db db' : Db)
    → db'.executions ≡ db.executions
    → ((j : Job)
        → find_job k db.jobs ≡ some j
        → j.status ≡ JobStatus.running
        → find_job k db'.jobs ≡ some j)
    → IsIdleOrRunning k db
    → IsIdleOrRunning k db'
unchanged k db db' same kept (inl idle) = inl (ap (is_executing k) same ∙ idle)
unchanged k db db' same kept (inr (j, found, running)) = inr (j, kept j found running, running)

pub claim_jobs-IsIdleOrRunning :
    (locked : List ℕ) (queue_id limit now k : ℕ) (db : Db)
    → Distinct (ids_of db.jobs)
    → IsIdleOrRunning k db
    → IsIdleOrRunning k (claim_jobs false locked queue_id limit now db).1
claim_jobs-IsIdleOrRunning locked queue_id limit now k db distinct =
    let db' = (claim_jobs false locked queue_id limit now db).1 in
    unchanged k db db'
      (ap (λ (d : Db). d.executions) (claim_jobs-Marked locked queue_id limit now db).1)
      λ j found running.
        elim (Bool-cases (includes k (claim_jobs false locked queue_id limit now db).0)) [
          | inr missed ↦ claim_jobs_others locked queue_id limit now db distinct k missed ∙ found
          | inl taken ↦
              let (i, found', free, row) =
                claim_jobs-claimed locked queue_id limit now db distinct k taken in
              let same : i ≡ j = cc in
              let queued = claimable-queued queue_id now i free.0 in
              let no = rw (same, running) at queued in cc
        ]

pub retry-executions :
    (up : Bool) (now id : ℕ) (db : Db)
    → ((or_same db (retry up now id db)).executions ≡ db.executions)
      × (ids_of (or_same db (retry up now id db)).jobs ≡ ids_of db.jobs)
unfolding retry
retry-executions up now id db = elim (Option-cases (find_job id db.jobs)) [
  | inl missing ↦ rw (retry, missing) (refl, refl)
  | inr (j, found) ↦ elim (Bool-cases (is_retryable j.status)) [
    | inl may ↦ rw (retry, found, may) (refl, keys-update_where _ _ _ db.jobs (λ j. refl))
    | inr refused ↦ rw (retry, found, refused) (refl, refl)
  ]
]

pub cancel-executions :
    (up : Bool) (now id : ℕ) (db : Db)
    → ((or_same db (cancel up now id db)).executions ≡ db.executions)
      × (ids_of (or_same db (cancel up now id db)).jobs ≡ ids_of db.jobs)
unfolding cancel
cancel-executions up now id db = elim (Option-cases (find_job id db.jobs)) [
  | inl missing ↦ rw (cancel, missing) (refl, refl)
  | inr (j, found) ↦ elim (Bool-cases (is_cancellable j.status)) [
    | inl may ↦ rw (cancel, found, may) (refl, keys-update_where _ _ _ db.jobs (λ j. refl))
    | inr refused ↦ rw (cancel, found, refused) (refl, refl)
  ]
]

pub retry-IsIdleOrRunning :
    (up : Bool) (now id k : ℕ) (db : Db)
    → IsIdleOrRunning k db
    → IsIdleOrRunning k (or_same db (retry up now id db))
unfolding retry
retry-IsIdleOrRunning up now id k db h = elim (Option-cases (find_job id db.jobs)) [
  | inl missing ↦ rw (retry, missing) h
  | inr (i, present) ↦ elim (retry-cases up now id db present) [
    | inr (kept, refused) ↦ rw refused h
    | inl (may, (w, done, answered, rows, claimable, letters)) ↦
        unchanged k db (or_same db (retry up now id db)) (retry-executions up now id db).0
          (λ j found running. rw done (elim (Bool-cases (k == id)) [
            | inr other ↦ rows k ∙ rw (other, found) refl
            | inl here ↦
                let same : i ≡ j = let at = ==→eq k id here in cc in
                let no = rw (same, running) at may in cc
          ]))
          h
  ]
]

pub cancel-IsIdleOrRunning :
    (up : Bool) (now id k : ℕ) (db : Db)
    → IsIdleOrRunning k db
    → IsIdleOrRunning k (or_same db (cancel up now id db))
unfolding cancel
cancel-IsIdleOrRunning up now id k db h = elim (Option-cases (find_job id db.jobs)) [
  | inl missing ↦ rw (cancel, missing) h
  | inr (i, present) ↦ elim (cancel-cases up now id db present) [
    | inr (kept, refused) ↦ rw refused h
    | inl (may, (w, done, answered, rows, never)) ↦
        unchanged k db (or_same db (cancel up now id db)) (cancel-executions up now id db).0
          (λ j found running. rw done (elim (Bool-cases (k == id)) [
            | inr other ↦ rows k ∙ rw (other, found) refl
            | inl here ↦
                let same : i ≡ j = let at = ==→eq k id here in cc in
                let no = rw (same, running) at may in cc
          ]))
          h
  ]
]

pub execute_job-IsIdleOrRunning :
    (handle : Handle) (s : Surroundings) (id worker k : ℕ) (db : Db)
    → ((i : Job) × (find_job id db.jobs ≡ some i) × (i.status ≡ JobStatus.claimed))
    → includes s.execution_id (execution_ids db.executions) ≡ false
    → IsIdleOrRunning k db
    → IsIdleOrRunning k (execute_job handle s id worker db).1
execute_job-IsIdleOrRunning handle s id worker k db (i, there, claimed) fresh (inl idle) =
    let own : find_job i.id db.jobs ≡ some i =
      ap (λ n. find_job n db.jobs) (find_unique-key (λ (j : Job). j.id) id db.jobs there) ∙ there in
    recorded-IsIdleOrRunning s i worker k db (execute_job handle s id worker db)
      (execute_job-Records handle s id worker db there fresh) own idle
execute_job-IsIdleOrRunning handle s id worker k db (i, there, claimed) fresh
      (inr (j, found, running)) =
    let apart : k ≢ id =
      λ at. let same : i ≡ j = cc in let no = rw (same, running) at claimed in cc in
    inr (j, execute_job_others handle s id worker k db apart ∙ found, running)
