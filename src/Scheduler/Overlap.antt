-- ===== src/Scheduler/Overlap.antt =====
-- worker/src/scheduler.ts: how many jobs ticks create. Every worker runs this loop, and the definitions
-- are read without a lock, so a second worker may read them before the first has advanced them.
use chronos_job_scheduler.Prelude.{
  ap, refl, ◌∙◌, ◌==◌, if◌then◌else◌, String, String, count_where-eq-length, ℕ, suc, ◌+◌, ◌≡◌, refl,
  Bool, false, none, some, List, [], ◌∷◌, ◌++◌, arith, select, All, length, count_where,
  Option-cases,
}
use chronos_job_scheduler.Schema.{Db, Job, ScheduledJob}
use mathlib.Core.Option.{map}
use chronos_job_scheduler.Schema.JsonValue.{end, object, member}
use chronos_job_scheduler.Scheduler.{
  column, end, object, column, Tick, is_due, template_job, create_and_advance, materialize,
  materialize_all, tick,
}
use chronos_job_scheduler.Scheduler.Due.{IsRunnable}

length-snoc : (jobs : List Job) (job : Job) → length (jobs ++ job ∷ []) ≡ suc (length jobs)
length-snoc [] job = refl
length-snoc (j ∷ jobs) job = omega (arith, length-snoc jobs job)

materialize-count :
    (t : Tick) (d : ScheduledJob) (s : ℕ × Db)
    → IsRunnable t d
    → length (materialize t d s).1.jobs ≡ suc (length s.1.jobs)
unfolding materialize create_and_advance
materialize-count t d (id, db) (type, next, typed, runs, future, accepted, calm) =
    let (job, made) = accepted id in
    rw (materialize, typed, runs, made, create_and_advance, calm) (length-snoc db.jobs job)

-- One job for each definition that the query returned.
pub materialize_all-count :
    (t : Tick) (ds : List ScheduledJob) (s : ℕ × Db)
    → All (IsRunnable t) ds
    → length (materialize_all t ds s).1.jobs ≡ length s.1.jobs + length ds
unfolding materialize_all
materialize_all-count t [] s h = omega arith
materialize_all-count t (d ∷ ds) s h =
    omega (arith, materialize_all-count t ds (materialize t d s) h.1, materialize-count t d s h.0)

-- A tick whose query answers adds exactly one job for each due definition, where each of these
-- has a valid template and a later run, and no call throws.
pub tick-count :
    (t : Tick) (s : ℕ × Db)
    → All (IsRunnable t) (select (is_due t.now) s.1.scheduled_jobs)
    → length (tick false t s).1.jobs
      ≡ length s.1.jobs + count_where (is_due t.now) s.1.scheduled_jobs
unfolding tick
tick-count t (id, db) h = omega (
  arith,
  materialize_all-count t (select (is_due t.now) db.scheduled_jobs) (id, db) h,
  count_where-eq-length (is_due t.now) db.scheduled_jobs,
)

-- What a worker does with one of the definitions that it has read.
abbrev pub Work : Type 0
Work = Tick × ScheduledJob

pub run_work : List Work → ℕ × Db → ℕ × Db
unfolding materialize
run_work [] s = s
run_work ((t, d) ∷ ws) s = run_work ws (materialize t d s)

-- The work of two workers on what each has read, each in its order.
pub data Merges (t u : Tick) : List ScheduledJob → List ScheduledJob → List Work → Type 0 where
  both_done : Merges t u [] [] []
  first_works :
      {d : ScheduledJob} {ds es : List ScheduledJob} {ws : List Work}
      → Merges t u ds es ws
      → Merges t u (d ∷ ds) es ((t, d) ∷ ws)
  second_works :
      {e : ScheduledJob} {ds es : List ScheduledJob} {ws : List Work}
      → Merges t u ds es ws
      → Merges t u ds (e ∷ es) ((u, e) ∷ ws)

abbrev pub is_in_queue : ℕ → Job → Bool
is_in_queue queue_id j = j.queue_id == queue_id

abbrev pub jobs_in : ℕ → Db → ℕ
jobs_in queue_id db = count_where (is_in_queue queue_id) db.jobs

abbrev pub is_for : ℕ → ScheduledJob → Bool
is_for queue_id d = d.queue_id == queue_id

count_where-snoc :
    (p : Job → Bool) (jobs : List Job) (job : Job)
    → count_where p (jobs ++ job ∷ []) ≡ count_where p jobs + (if p job then 1 else 0)
count_where-snoc p [] job = omega arith
count_where-snoc p (j ∷ jobs) job = omega (arith, count_where-snoc p jobs job)

template_job-queue :
    (t : Tick) (id : ℕ) (d : ScheduledJob) (type : String) {job : Job}
    → template_job t id d type ≡ some job
    → job.queue_id ≡ d.queue_id
unfolding template_job
template_job-queue t id d type {job} h = ground (
  arith,
  Option-cases (column some (object end) (member "payload" d.job_template)),
  Option-cases (column t.integer 0 (member "priority" d.job_template)),
  Option-cases
      (column (λ v. map some (t.identifier v)) none (member "retryPolicyId" d.job_template)),
)

materialize-jobs_in :
    (k : ℕ) (t : Tick) (d : ScheduledJob) (s : ℕ × Db)
    → IsRunnable t d
    → jobs_in k (materialize t d s).1 ≡ jobs_in k s.1 + (if is_for k d then 1 else 0)
unfolding materialize create_and_advance
materialize-jobs_in k t d (id, db) (type, next, typed, runs, future, accepted, calm) =
    let (job, made) = accepted id in
    let same : (job.queue_id == k) ≡ (d.queue_id == k) =
      ap (λ q. q == k) (template_job-queue t id d type made) in
    rw (materialize, typed, runs, made, create_and_advance, calm)
      (count_where-snoc (is_in_queue k) db.jobs job ∙ rw same refl)

run_work-jobs_in :
    (k : ℕ) (t u : Tick) (ds es : List ScheduledJob) (ws : List Work) (s : ℕ × Db)
    → All (IsRunnable t) ds
    → All (IsRunnable u) es
    → Merges t u ds es ws
    → jobs_in k (run_work ws s).1
      ≡ jobs_in k s.1 + count_where (is_for k) ds + count_where (is_for k) es
unfolding run_work
run_work-jobs_in k t u _ _ _ s runs runs' both_done = omega arith
run_work-jobs_in k t u _ es _ s runs runs' (first_works {d} {ds} {ws = ws} rest) = omega (
  arith,
  run_work-jobs_in k t u ds es ws (materialize t d s) runs.1 runs' rest,
  materialize-jobs_in k t d s runs.0,
)
run_work-jobs_in k t u ds _ _ s runs runs' (second_works {e} {es = es} {ws = ws} rest) = omega (
  arith,
  run_work-jobs_in k t u ds es ws (materialize u e s) runs runs'.1 rest,
  materialize-jobs_in k u e s runs'.0,
)

-- Two workers read the definitions that are due, each at the time of its own clock, before either has advanced
-- one; each of these has a valid template and a later run for the worker that reads it, and no call throws.
-- However the two then take turns, a definition at a time, each queue gains as many jobs as it has
-- definitions that were due for the one, and as many again as were due for the other: what was due for
-- both is run twice.
pub overlapping_ticks :
    (t u : Tick) (k : ℕ) (ws : List Work) (s : ℕ × Db)
    → All (IsRunnable t) (select (is_due t.now) s.1.scheduled_jobs)
    → All (IsRunnable u) (select (is_due u.now) s.1.scheduled_jobs)
    → Merges t u
        (select (is_due t.now) s.1.scheduled_jobs)
        (select (is_due u.now) s.1.scheduled_jobs)
        ws
    → jobs_in k (run_work ws s).1
      ≡ jobs_in k s.1
        + count_where (is_for k) (select (is_due t.now) s.1.scheduled_jobs)
        + count_where (is_for k) (select (is_due u.now) s.1.scheduled_jobs)
overlapping_ticks t u k ws s runs runs' merged =
    run_work-jobs_in k t u (select (is_due t.now) s.1.scheduled_jobs)
      (select (is_due u.now) s.1.scheduled_jobs) ws s runs runs' merged
