-- ===== src/Scheduler/Due.antt =====
-- worker/src/scheduler.ts: which definitions are due after a tick.
use chronos_job_scheduler.Prelude.{
  ℕ, ◌<◌, ◌≡◌, refl, ◌⊎◌, inl, inr, String, Bool, false, not, ◌&&◌, some, List, [], ◌∷◌, ◌==◌,
  arith, select, update_where, All, All-map, keys, includes, Bool-cases,
}
use chronos_job_scheduler.Schema.{Db, Job, ScheduledJob}
use chronos_job_scheduler.Schema.JsonValue.{text_field}
use chronos_job_scheduler.Scheduler.{
  Tick, is_due, template_job, create_and_advance, deactivate_unless, materialize, materialize_all,
  tick, advance, deactivate, never, at, answered,
}

-- A definition that nothing stops: its template is a job, its expression has a future run, and no call throws.
abbrev pub IsRunnable : Tick → ScheduledJob → Type 0
IsRunnable t d =
    (type : String) × (next : ℕ) × (text_field "type" d.job_template ≡ some type)
    × (t.cron d.cron_expression t.now ≡ at next)
    × (t.now < next)
    × ((id : ℕ) → (job : Job) × (template_job t id d type ≡ some job))
    × (t.fault d.id ≡ answered)

-- The same, or one whose expression has no further run.
abbrev pub IsReady : Tick → ScheduledJob → Type 0
IsReady t d =
    IsRunnable t d
    ⊎ ((type : String) × (text_field "type" d.job_template ≡ some type)
        × (t.cron d.cron_expression t.now ≡ never)
        × (t.fault d.id ≡ answered))

-- Handling such a definition rewrites its row to one that is not due.
abbrev Settles : Tick → ScheduledJob → ℕ × Db → Type 0
Settles t d s =
    (f : ScheduledJob → ScheduledJob) × ((x : ScheduledJob)
      → (is_due t.now (f x) ≡ false) × ((f x).id ≡ x.id))
    × ((materialize t d s).1.scheduled_jobs ≡ update_where (λ x. x.id == d.id) f s.1.scheduled_jobs)

materialize-IsReady : (t : Tick) (d : ScheduledJob) (s : ℕ × Db) → IsReady t d → Settles t d s
unfolding materialize create_and_advance deactivate_unless is_due
materialize-IsReady t d (id, db) (inl (type, next, typed, runs, future, accepted, calm)) =
    let (job, made) = accepted id in
    (
      advance t.now next,
      λ x. (ground arith, refl),
      rw (materialize, typed, runs, made, create_and_advance, calm) refl,
    )
materialize-IsReady t d (id, db) (inr (type, typed, ended, calm)) =
    (deactivate, λ x. (refl, refl), rw (materialize, typed, ended, deactivate_unless, calm) refl)

-- Every row that is due has its identifier among these.
abbrev Covers : ℕ → List ℕ → List ScheduledJob → Type 0
Covers now ids = All (λ x. (is_due now x && not (includes x.id ids)) ≡ false)

Covers-select :
    (now : ℕ) (rows : List ScheduledJob)
    → Covers now (keys (λ (d : ScheduledJob). d.id) (select (is_due now) rows)) rows
Covers-select now [] = tt
Covers-select now (x ∷ xs) = (
  ground (arith, Bool-cases (is_due now x)),
  All-map _ _ xs (λ y h. ground (arith, h, Bool-cases (is_due now x))) (Covers-select now xs),
)

Covers-update :
    (now k : ℕ) (ids : List ℕ) (f : ScheduledJob → ScheduledJob) (rows : List ScheduledJob)
    → ((x : ScheduledJob) → (is_due now (f x) ≡ false) × ((f x).id ≡ x.id))
    → Covers now (k ∷ ids) rows
    → Covers now ids (update_where (λ x. x.id == k) f rows)
Covers-update now k ids f [] settled h = tt
Covers-update now k ids f (x ∷ xs) settled h = elim (Bool-cases (x.id == k)) [
  | inl e ↦ rw (e, (settled x).0) (refl, Covers-update now k ids f xs settled h.1)
  | inr e ↦ rw e (rw e at h.0, Covers-update now k ids f xs settled h.1)
]

materialize_all-Covers :
    (t : Tick) (ds : List ScheduledJob) (s : ℕ × Db)
    → All (IsReady t) ds
    → Covers t.now (keys (λ (d : ScheduledJob). d.id) ds) s.1.scheduled_jobs
    → Covers t.now [] (materialize_all t ds s).1.scheduled_jobs
unfolding materialize_all
materialize_all-Covers t [] s ready h = h
materialize_all-Covers t (d ∷ ds) s ready h =
    let (f, settled, eq) = materialize-IsReady t d s ready.0 in
    materialize_all-Covers t ds (materialize t d s) ready.1
      (rw eq (Covers-update t.now d.id _ f s.1.scheduled_jobs settled h))

select-none :
    (p : ScheduledJob → Bool) (rows : List ScheduledJob)
    → All (λ x. p x ≡ false) rows
    → select p rows ≡ []
select-none p [] h = refl
select-none p (x ∷ xs) h = rw h.0 (select-none p xs h.1)

-- After a tick whose query answers and in which each due definition has a valid template, a cron
-- expression with a later run or none, and no call that throws, a second tick at the same time
-- changes nothing, whatever it would have met.
pub tick-tick :
    (t again : Tick) (s : ℕ × Db)
    → All (IsReady t) (select (is_due t.now) s.1.scheduled_jobs)
    → again.now ≡ t.now
    → tick false again (tick false t s) ≡ tick false t s
unfolding tick materialize_all
tick-tick t again (id, db) ready same =
    let due = select (is_due t.now) db.scheduled_jobs in
    let covered =
      materialize_all-Covers t due (id, db) ready (Covers-select t.now db.scheduled_jobs) in
    rw (same, select-none (is_due t.now) _ (All-map _ _ _ (λ x h. ground (arith, h)) covered)) refl
