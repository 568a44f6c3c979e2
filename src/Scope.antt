-- ===== src/Scope.antt =====
-- What the routes of api/src/routes that take no `requireOrgMember` do instead: they look for the
-- user's memberships, and restrict a listing to those organizations or refuse a single row.
pub mod Members
use chronos_job_scheduler.Prelude.{
  ℕ, Bool, true, false, Option, none, some, List, map, ◌==◌, includes, select,
}
use chronos_job_scheduler.Schema.{Db, OrgMembership}
use chronos_job_scheduler.Errors.{
  Result, ok, err, ◌>>=◌, ◌>>◌, or_fail, Thrown, chronos_error, not_found,
}
use chronos_job_scheduler.Rbac.{find_membership}

-- `memberships.map((m) => m.orgId)`
abbrev pub org_ids : ℕ → Db → List ℕ
org_ids user_id db =
    map (λ (m : OrgMembership). m.org_id) (select (λ m. m.user_id == user_id) db.memberships)

-- `{ orgId: { in: orgIds } }`, for a row whose organization is looked up through its references.
abbrev pub in_orgs : List ℕ → Option ℕ → Bool
in_orgs orgs none = false
in_orgs orgs (some org) = includes org orgs

-- The membership is looked up, and without one the row is as good as missing.
abbrev pub require_membership : ℕ → Option ℕ → Db → Result OrgMembership
require_membership user_id none db = err (chronos_error not_found)
require_membership user_id (some org) db =
    or_fail (find_membership org user_id db) (chronos_error not_found)
