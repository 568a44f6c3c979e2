-- ===== src/Scheduler/Additions.antt =====
-- worker/src/scheduler.ts: what a tick adds to the jobs, whatever fails in it.
use chronos_job_scheduler.Prelude.{
  refl, length-append, All-append, String, String, ℕ, suc, ◌+◌, inl, inr, ==_self, append-nil,
  append_assoc, ◌≡◌, refl, sym, Bool, true, false, none, some, List, [], ◌∷◌, ◌++◌, arith, select,
  All, length, Option-cases,
}
use chronos_job_scheduler.Schema.{Db, Job, ScheduledJob}
use mathlib.Core.Option.{map}
use chronos_job_scheduler.Schema.JsonValue.{end, object, member, text_field}
use chronos_job_scheduler.Scheduler.{
  column, add_job, end, object, column, add_job, CronAnswer, Fault, Tick, is_due, template_job,
  create_and_advance, deactivate_unless, materialize, materialize_all, tick, throws, never, at,
  answered, create_fails, update_fails, publish_fails,
}
use chronos_job_scheduler.Claimer.{is_claimable}

-- The jobs that are there stay, and every job that is added can be claimed at once.
abbrev pub Adds : Tick → ℕ × Db → ℕ × Db → Type 0
Adds t s s' =
    (new : List Job) × (s'.1.jobs ≡ s.1.jobs ++ new)
    × All (λ j. is_claimable j.queue_id t.now j ≡ true) new
    × (s'.0 ≡ s.0 + length new)

Adds-nothing : (t : Tick) (s : ℕ × Db) → Adds t s s
Adds-nothing t s = ([], sym (append-nil s.1.jobs), tt, omega arith)

template_job-claimable :
    (t : Tick) (id : ℕ) (d : ScheduledJob) (type : String) {job : Job}
    → template_job t id d type ≡ some job
    → is_claimable job.queue_id t.now job ≡ true
unfolding template_job
template_job-claimable t id d type {job} h = ground (
  arith,
  ==_self d.queue_id,
  Option-cases (column some (object end) (member "payload" d.job_template)),
  Option-cases (column t.integer 0 (member "priority" d.job_template)),
  Option-cases
      (column (λ v. map some (t.identifier v)) none (member "retryPolicyId" d.job_template)),
)

Adds-create :
    (t : Tick) (d : ScheduledJob) (next : ℕ) (job : Job) (s : ℕ × Db)
    → is_claimable job.queue_id t.now job ≡ true
    → Adds t s (create_and_advance t d next job s)
unfolding create_and_advance
Adds-create t d next job (id, db) h = go (t.fault d.id) refl
  where
    added : Adds t (id, db) (suc id, add_job job db)
    added = (job ∷ [], refl, (h, tt), omega arith)

    go : (f : Fault) → t.fault d.id ≡ f → Adds t (id, db) (create_and_advance t d next job (id, db))
    go create_fails e = rw (create_and_advance, e) (Adds-nothing t (id, db))
    go update_fails e = rw (create_and_advance, e) added
    go publish_fails e = rw (create_and_advance, e) added
    go answered e = rw (create_and_advance, e) added

Adds-deactivate : (t : Tick) (d : ScheduledJob) (s : ℕ × Db) → Adds t s (deactivate_unless t d s)
unfolding deactivate_unless
Adds-deactivate t d (id, db) = go (t.fault d.id) refl
  where
    go : (f : Fault) → t.fault d.id ≡ f → Adds t (id, db) (deactivate_unless t d (id, db))
    go create_fails e = rw (deactivate_unless, e) (Adds-nothing t (id, db))
    go update_fails e = rw (deactivate_unless, e) (Adds-nothing t (id, db))
    go publish_fails e = rw (deactivate_unless, e) (Adds-nothing t (id, db))
    go answered e = rw (deactivate_unless, e) (Adds-nothing t (id, db))

Adds-step : (t : Tick) (d : ScheduledJob) (s : ℕ × Db) → Adds t s (materialize t d s)
unfolding materialize
Adds-step t d (id, db) = elim (Option-cases (text_field "type" d.job_template)) [
  | inl bad ↦ rw (materialize, bad) (Adds-nothing t (id, db))
  | inr (type, typed) ↦ answer type typed (t.cron d.cron_expression t.now) refl
]
  where
    answer :
        (type : String)
        → text_field "type" d.job_template ≡ some type
        → (a : CronAnswer) → t.cron d.cron_expression t.now ≡ a
        → Adds t (id, db) (materialize t d (id, db))
    answer type typed throws e = rw (materialize, typed, e) (Adds-nothing t (id, db))
    answer type typed never e = rw (materialize, typed, e) (Adds-deactivate t d (id, db))
    answer type typed (at next) e = elim (Option-cases (template_job t id d type)) [
      | inl bad ↦ rw (materialize, typed, e, bad) (Adds-nothing t (id, db))
      | inr (job, made) ↦
          rw (materialize, typed, e, made)
            (Adds-create t d next job (id, db) (template_job-claimable t id d type made))
    ]

Adds-all : (t : Tick) (ds : List ScheduledJob) (s : ℕ × Db) → Adds t s (materialize_all t ds s)
unfolding materialize_all
Adds-all t [] s = Adds-nothing t s
Adds-all t (d ∷ ds) s =
    let (new, jobs, ready, ids) = Adds-step t d s in
    let (more, jobs', ready', ids') = Adds-all t ds (materialize t d s) in
    (
      new ++ more,
      rw (jobs', jobs) (append_assoc s.1.jobs new more),
      All-append _ new more ready ready',
      omega (arith, ids, ids', length-append new more),
    )

-- Whatever fails in a tick, the jobs that were there stay as they were, in front; each job that
-- is added can be claimed at once; the next identifier grows by the number of jobs added.
pub tick-Adds : (query_fails : Bool) (t : Tick) (s : ℕ × Db) → Adds t s (tick query_fails t s)
unfolding tick
tick-Adds true t s = Adds-nothing t s
tick-Adds false t (id, db) = Adds-all t (select (is_due t.now) db.scheduled_jobs) (id, db)
