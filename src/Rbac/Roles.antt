-- ===== src/Rbac/Roles.antt =====
-- api/src/middleware/rbac.ts: what being let through says of the user's role, by the parameter of the path.
use chronos_job_scheduler.Prelude.{ℕ, ◌≤◌, ◌≡◌, Option, none, some, Option-cases, inl, inr, arith}
use chronos_job_scheduler.Schema.{Db, OrgMembership, OrgMemberRole, owner, admin, member}
use chronos_job_scheduler.Errors.{Result, ok}
use chronos_job_scheduler.Rbac.{
  role_level, find_project, find_queue, find_job, find_membership, org_of_project, org_of_queue,
  org_of_job, from_project, from_queue, from_job, resolve_org, require_org_member,
}
use chronos_job_scheduler.Rbac.Access.{IsAllowed, require_org_member_iff}

-- The organization is known, and the user a member of it with a role of at least this rank.
abbrev pub HasRole : Db → ℕ → OrgMemberRole → Option ℕ → Type 0
HasRole db user role org =
    (o : ℕ) × (m : OrgMembership) × (org ≡ some o)
    × (find_membership o user db ≡ some m)
    × (role_level role ≤ role_level m.role)

pub member_le : (role : OrgMemberRole) → role_level member ≤ role_level role
member_le owner = omega arith
member_le admin = omega arith
member_le member = omega arith

HasRole-allowed :
    (db : Db) (user : ℕ) (role : OrgMemberRole) (r : Result (Option ℕ)) (org : Option ℕ)
    → ((o : ℕ) → r ≡ ok (some o) → org ≡ some o)
    → IsAllowed role user db r
    → HasRole db user role org
HasRole-allowed db user role r org resolved (o, m, is_ok, found, high) =
    (o, m, resolved o is_ok, found, high)

module _ (role : OrgMemberRole) (user id : ℕ) (db : Db) where
  pub require_org_member-project :
      require_org_member role
          (some user)
          (record { org_id = none; project_id = some id; queue_id = none; id = none })
          db
        ≡ ok tt
      → HasRole db user role (org_of_project (find_project id db))
  unfolding resolve_org from_project from_queue from_job
  require_org_member-project passed =
      HasRole-allowed db user role _ (org_of_project (find_project id db))
        (λ o. elim (Option-cases (find_project id db)) [
          | inl missing ↦ rw missing (λ h. cc)
          | inr (p, found) ↦ rw found (λ h. cc)
        ])
        ((require_org_member_iff role user _ db).0 passed)

  pub require_org_member-queue :
      require_org_member role
          (some user)
          (record { org_id = none; project_id = none; queue_id = some id; id = none })
          db
        ≡ ok tt
      → HasRole db user role (org_of_queue db (find_queue id db))
  unfolding resolve_org from_project from_queue from_job
  require_org_member-queue passed =
      HasRole-allowed db user role _ (org_of_queue db (find_queue id db))
        (λ o. elim (Option-cases (find_queue id db)) [
          | inl missing ↦ rw missing (λ h. cc)
          | inr (q, found) ↦
              rw found (elim (Option-cases (org_of_project (find_project q.project_id db))) [
                | inl none_of ↦ rw none_of (λ h. cc)
                | inr (org, of) ↦ rw of (λ h. cc)
              ])
        ])
        ((require_org_member_iff role user _ db).0 passed)

  pub require_org_member-job :
      require_org_member role
          (some user)
          (record { org_id = none; project_id = none; queue_id = none; id = some id })
          db
        ≡ ok tt
      → HasRole db user role (org_of_job db (find_job id db))
  unfolding resolve_org from_project from_queue from_job
  require_org_member-job passed =
      HasRole-allowed db user role _ (org_of_job db (find_job id db)) (λ o h. cc)
        ((require_org_member_iff role user _ db).0 passed)
