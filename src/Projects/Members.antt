-- ===== src/Projects/Members.antt =====
-- api/src/routes/projects.ts: a project is made and described for members of its organization.
use chronos_job_scheduler.Prelude.{
  ℕ, String, ◌≡◌, refl, some, Option-cases, Bool-cases, arith, inl, inr,
}
use chronos_job_scheduler.Schema.{Db, member}
use chronos_job_scheduler.Errors.{ok, err, chronos_error, not_found}
use chronos_job_scheduler.Errors.{Result-cases}
use chronos_job_scheduler.Rbac.{find_membership, find_project, org_of_project}
use chronos_job_scheduler.Rbac.Roles.{HasRole, member_le}
use chronos_job_scheduler.Scope.{require_membership}
use chronos_job_scheduler.Scope.Members.{require_membership-HasRole}
use chronos_job_scheduler.Projects.{ProjectDetail, is_valid_name, create_project, get_project}

pub create_project-HasRole :
    (user now id key org : ℕ) (name : String) (db : Db) {db' : Db}
    → create_project user now id key org name db ≡ ok db'
    → HasRole db user member (some org)
unfolding create_project
create_project-HasRole user now id key org name db {db'} created =
    elim (Option-cases (find_membership org user db)) [
      | inl stranger ↦ ground (arith, Bool-cases (is_valid_name name))
      | inr (m, belongs) ↦ (org, m, refl, belongs, member_le m.role)
    ]

pub get_project-HasRole :
    (user id : ℕ) (db : Db) {detail : ProjectDetail}
    → get_project user id db ≡ ok detail
    → HasRole db user member (org_of_project (find_project id db))
unfolding get_project
get_project-HasRole user id db {detail} h = elim (Option-cases (find_project id db)) [
  | inl missing ↦
      let refused : get_project user id db ≡ err (chronos_error not_found) = rw missing refl in cc
  | inr (p, found) ↦ elim (Result-cases (require_membership user (some p.org_id) db)) [
    | inl (m, belongs) ↦ rw found (require_membership-HasRole user (some p.org_id) db belongs)
    | inr (e, stranger) ↦
        let refused : get_project user id db ≡ err e = rw (found, stranger) refl in cc
  ]
]

pub create_project-jobs :
    (user now id key org : ℕ) (name : String) (db : Db) {db' : Db}
    → create_project user now id key org name db ≡ ok db'
    → db'.jobs ≡ db.jobs
unfolding create_project
create_project-jobs user now id key org name db {db'} created =
    ground (arith, Bool-cases (is_valid_name name), Option-cases (find_membership org user db))
