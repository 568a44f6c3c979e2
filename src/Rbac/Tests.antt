-- ===== src/Rbac/Tests.antt =====
-- api/src/middleware/rbac.ts: tests with an admin of one organization.
use chronos_job_scheduler.Prelude.{◌≡◌, refl, some, none, [], ◌∷◌}
use chronos_job_scheduler.Schema.{Db, admin, member}
use chronos_job_scheduler.Errors.{ok, err, chronos_error, forbidden}
use chronos_job_scheduler.Samples.{empty_db, queue}
use chronos_job_scheduler.Rbac.{
  from_project, from_queue, from_job, check_org, check_role, Params, require_org_member,
  resolve_org,
}

abbrev db : Db
db = record empty_db {
  queues = queue ∷ [];
  projects = record { id = 3; org_id = 2; name = "p"; api_key = 30; created_at = 0 } ∷ [];
  memberships = record { org_id = 2; user_id = 1; role = admin } ∷ [];
}

abbrev by_queue : Params
by_queue = record { org_id = none; project_id = none; queue_id = some 7; id = none }

let_through : require_org_member admin (some 1) by_queue db ≡ ok tt
unfolding require_org_member resolve_org from_project from_queue from_job check_org check_role
let_through = refl

-- The queue's identifier, as PATCH /queues/:id passes it.
queue_as_job :
    require_org_member member
      (some 1)
      (record { org_id = none; project_id = none; queue_id = none; id = some 7 })
      db
    ≡ err (chronos_error forbidden)
unfolding require_org_member resolve_org from_project from_queue from_job check_org
queue_as_job = refl
