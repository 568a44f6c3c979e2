-- ===== src/Workers/Tests.antt =====
-- api/src/routes/workers.ts: tests.
use chronos_job_scheduler.Prelude.{◌≡◌, refl, some, none, [], ◌∷◌}
use chronos_job_scheduler.Schema.{Db}
use chronos_job_scheduler.Errors.{err, chronos_error, not_found, unexpected}
use chronos_job_scheduler.Samples.{empty_db, worker}
use chronos_job_scheduler.Workers.{list_workers, get_worker}

abbrev db : Db
db = record empty_db { workers = worker 4 0 ∷ [] }

missing : get_worker 5 db ≡ err (chronos_error not_found)
unfolding get_worker
missing = refl

no_such_status : list_workers (some "idle") none none db ≡ err unexpected
unfolding list_workers
no_such_status = refl
