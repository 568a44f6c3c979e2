-- ===== src/Projects/Tests.antt =====
-- api/src/routes/projects.ts: tests.
use chronos_job_scheduler.Prelude.{◌≡◌, refl, [], ◌∷◌}
use chronos_job_scheduler.Schema.{Db, member}
use chronos_job_scheduler.Errors.{err, chronos_error, not_found, validation_error}
use chronos_job_scheduler.Samples.{empty_db}
use chronos_job_scheduler.Projects.{create_project}

abbrev db : Db
db = record empty_db { memberships = record { org_id = 2; user_id = 1; role = member } ∷ [] }

no_name : create_project 1 0 3 9 2 "" db ≡ err (chronos_error validation_error)
unfolding create_project
no_name = refl

no_member : create_project 4 0 3 9 2 "shop" db ≡ err (chronos_error not_found)
unfolding create_project
no_member = refl
