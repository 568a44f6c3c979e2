-- ===== src/Rbac.antt =====
-- api/src/middleware/rbac.ts: `requireOrgMember`, and `ROLE_HIERARCHY` of api/src/types/index.ts.
-- A missing route parameter and an empty one are both `none`, since the code tests for truth.
pub mod Access
pub mod Roles
mod Tests
use chronos_job_scheduler.Prelude.{
  ℕ, Option, none, some, Bool, true, false, ◌&&◌, List, ◌==◌, ltb, if◌then◌else◌, find_unique,
  find_first,
}
use chronos_job_scheduler.Schema.{
  Db, Job, Queue, Project, OrgMembership, OrgMemberRole, owner, admin, member,
}
use chronos_job_scheduler.Errors.{
  Result, ok, err, ◌>>=◌, ApiError, Thrown, chronos_error, not_found, unauthorized, forbidden,
}

abbrev pub role_level : OrgMemberRole → ℕ
role_level owner = 3
role_level admin = 2
role_level member = 1

pub record Params : Type 0 where
  pub org_id : Option ℕ
  pub project_id : Option ℕ
  pub queue_id : Option ℕ
  pub id : Option ℕ

abbrev pub find_project : ℕ → Db → Option Project
find_project id db = find_unique (λ (p : Project). p.id) id db.projects

abbrev pub find_queue : ℕ → Db → Option Queue
find_queue id db = find_unique (λ (q : Queue). q.id) id db.queues

abbrev pub find_job : ℕ → Db → Option Job
find_job id db = find_unique (λ (j : Job). j.id) id db.jobs

abbrev pub find_membership : ℕ → ℕ → Db → Option OrgMembership
find_membership org_id user_id db =
    find_first (λ m. m.org_id == org_id && m.user_id == user_id) db.memberships

-- `queue.project.orgId`, which the foreign key makes present.
abbrev pub org_of_project : Option Project → Option ℕ
org_of_project none = none
org_of_project (some p) = some p.org_id

abbrev pub org_of_queue : Db → Option Queue → Option ℕ
org_of_queue db none = none
org_of_queue db (some q) = org_of_project (find_project q.project_id db)

abbrev pub org_of_job : Db → Option Job → Option ℕ
org_of_job db none = none
org_of_job db (some j) = org_of_queue db (find_queue j.queue_id db)

-- `if (!orgId && params.projectId)`
pub from_project : Db → Option ℕ → Option ℕ → Result (Option ℕ)
from_project db (some org) project_id = ok (some org)
from_project db none none = ok none
from_project db none (some id) = elim (find_project id db) [
  | none ↦ err (chronos_error not_found)
  | some p ↦ ok (some p.org_id)
]

-- `if (!orgId && params.queueId)`
pub from_queue : Db → Option ℕ → Option ℕ → Result (Option ℕ)
from_queue db (some org) queue_id = ok (some org)
from_queue db none none = ok none
from_queue db none (some id) = elim (find_queue id db) [
  | none ↦ err (chronos_error not_found)
  | some q ↦ ok (org_of_queue db (some q))
]

-- `if (!orgId && params.id)`: the parameter is read as the identifier of a job.
pub from_job : Db → Option ℕ → Option ℕ → Option ℕ
from_job db (some org) id = some org
from_job db none none = none
from_job db none (some id) = org_of_job db (find_job id db)

pub resolve_org : Params → Db → Result (Option ℕ)
unfolding from_project from_queue from_job
resolve_org params db = do
  by_project ← from_project db params.org_id params.project_id
  by_queue ← from_queue db by_project params.queue_id
  ok (from_job db by_queue params.id)

-- The role of the membership against the role that is asked for.
pub check_role : OrgMemberRole → Option OrgMembership → Result (Unit {0})
check_role min_role none = err (chronos_error forbidden)
check_role min_role (some m) =
    if ltb (role_level m.role) (role_level min_role) then err (chronos_error forbidden) else ok tt

pub check_org : OrgMemberRole → ℕ → Db → Option ℕ → Result (Unit {0})
unfolding check_role
check_org min_role user_id db none = err (chronos_error forbidden)
check_org min_role user_id db (some org_id) =
    check_role min_role (find_membership org_id user_id db)

-- The preHandler, for the user that `requireAuth` attached.
pub require_org_member : OrgMemberRole → Option ℕ → Params → Db → Result (Unit {0})
unfolding resolve_org check_org
require_org_member min_role none params db = err (chronos_error unauthorized)
require_org_member min_role (some user_id) params db = do
  org ← resolve_org params db
  check_org min_role user_id db org
