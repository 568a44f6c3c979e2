-- ===== src/Rbac/Access.antt =====
-- api/src/middleware/rbac.ts: who is let through.
use chronos_job_scheduler.Prelude.{le→not_ltb, ℕ, ◌≤◌, ◌≡◌, refl, ◌↔◌, Option, none, some, arith}
use chronos_job_scheduler.Schema.{Db, OrgMembership, OrgMemberRole}
use chronos_job_scheduler.Errors.{Result, ok, err, ◌>>=◌, chronos_error, forbidden}
use chronos_job_scheduler.Rbac.{
  role_level, Params, find_membership, find_job, resolve_org, check_role, check_org,
  require_org_member, from_project, from_queue, from_job,
}

-- Membership with a role of at least this rank in the organization that was resolved.
abbrev pub IsAllowed : OrgMemberRole → ℕ → Db → Result (Option ℕ) → Type 0
IsAllowed min_role user_id db r =
    (org : ℕ) × (m : OrgMembership) × (r ≡ ok (some org))
    × (find_membership org user_id db ≡ some m)
    × (role_level min_role ≤ role_level m.role)

check_role-ok :
    (min_role : OrgMemberRole) (o : Option OrgMembership)
    → check_role min_role o ≡ ok tt
    → (m : OrgMembership) × (o ≡ some m) × (role_level min_role ≤ role_level m.role)
unfolding check_role
check_role-ok min_role none h = cc
check_role-ok min_role (some m) h = (m, refl, ground arith)

IsAllowed-of_ok :
    (min_role : OrgMemberRole) (user_id : ℕ) (db : Db) (r : Result (Option ℕ))
    → (r >>= λ org. check_org min_role user_id db org) ≡ ok tt
    → IsAllowed min_role user_id db r
unfolding check_org
IsAllowed-of_ok min_role user_id db (err e) h = cc
IsAllowed-of_ok min_role user_id db (ok none) h = cc
IsAllowed-of_ok min_role user_id db (ok (some org)) h =
    let (m, found, high) = check_role-ok min_role (find_membership org user_id db) h in
    (org, m, refl, found, high)

-- A user is let through exactly if the request's organization can be determined and the user is
-- a member of it with a role that ranks at least as high as the role that is asked for.
pub require_org_member_iff :
    (min_role : OrgMemberRole) (user_id : ℕ) (params : Params) (db : Db)
    → (require_org_member min_role (some user_id) params db ≡ ok tt)
      ↔ IsAllowed min_role user_id db (resolve_org params db)
unfolding require_org_member check_org check_role
require_org_member_iff min_role user_id params db = (
  IsAllowed-of_ok min_role user_id db (resolve_org params db),
  λ (org, m, resolved, found, high). rw resolved (rw found (rw (le→not_ltb _ _ high) refl)),
)

-- A request with the parameter `id` alone is refused, whatever the role, where no job has that
-- identifier.
pub require_org_member_id :
    (min_role : OrgMemberRole) (user_id id : ℕ) (db : Db)
    → find_job id db ≡ none
    → require_org_member min_role
        (some user_id)
        (record { org_id = none; project_id = none; queue_id = none; id = some id })
        db
      ≡ err (chronos_error forbidden)
unfolding require_org_member check_org from_job from_project from_queue resolve_org
require_org_member_id min_role user_id id db absent = rw absent refl
