-- ===== src/Scheduler/Tests.antt =====
-- worker/src/scheduler.ts: the theorems at one definition that is due.
use chronos_job_scheduler.Prelude.{
  suc, suc, ℕ, ◌+◌, ◌≡◌, refl, inl, true, false, some, none, [], ◌∷◌, arith, count_where, select,
}
use chronos_job_scheduler.Schema.{Db, ScheduledJob}
use chronos_job_scheduler.Schema.JsonValue.{text, object, field, end}
use chronos_job_scheduler.Samples.{empty_db}
use chronos_job_scheduler.Scheduler.{at, answered, update_fails, Tick, is_due, tick, template_job}
use chronos_job_scheduler.Scheduler.Due.{IsRunnable, tick-tick}
use chronos_job_scheduler.Scheduler.Overlap.{
  first_works, second_works, both_done, run_work, jobs_in, is_for, overlapping_ticks,
}

abbrev hourly : ScheduledJob
hourly = record {
  id = 4;
  project_id = 3;
  cron_expression = "0 * * * *";
  queue_id = 7;
  job_template = object (field "type" (text "echo") end);
  is_active = true;
  last_run_at = none;
  next_run_at = some 3600000;
  created_at = 0;
}

abbrev now : ℕ
now = 3600001

abbrev clock : Tick
clock = record {
  cron = λ expression now. at (now + 3600000);
  integer = λ v. none;
  identifier = λ v. none;
  fault = λ id. answered;
  now = now;
}

abbrev one_due : ℕ × Db
one_due = (100, record empty_db { scheduled_jobs = hourly ∷ [] })

hourly-IsRunnable : IsRunnable clock hourly
unfolding template_job
hourly-IsRunnable = ("echo", 7200001, refl, refl, omega arith, λ id. (_, refl), refl)

tick-tick_example : tick false clock (tick false clock one_due) ≡ tick false clock one_due
unfolding is_due
tick-tick_example = tick-tick clock clock one_due (inl hourly-IsRunnable, tt) refl

-- A second worker, whose clock is ahead.
abbrev ahead : Tick
ahead = record clock { now = suc now }

ahead-IsRunnable : IsRunnable ahead hourly
unfolding template_job
ahead-IsRunnable = ("echo", 7200002, refl, refl, omega arith, λ id. (_, refl), refl)

overlapping_ticks_example :
    jobs_in 7 (run_work ((ahead, hourly) ∷ (clock, hourly) ∷ []) one_due).1
    ≡ 0
      + count_where (is_for 7) (select (is_due now) (hourly ∷ []))
      + count_where (is_for 7) (select (is_due (suc now)) (hourly ∷ []))
unfolding is_due
overlapping_ticks_example =
    overlapping_ticks clock ahead 7 ((ahead, hourly) ∷ (clock, hourly) ∷ []) one_due
      (hourly-IsRunnable, tt) (ahead-IsRunnable, tt) (second_works (first_works both_done))

-- The job is there, and the definition could not be advanced.
abbrev half_done : Tick
half_done = record clock { fault = λ id. update_fails }
