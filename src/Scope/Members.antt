-- ===== src/Scope/Members.antt =====
-- The two forms of the membership test compared.
use chronos_job_scheduler.Prelude.{
  find_first, ℕ, Bool, true, false, ◌≡◌, refl, Option, none, some, List, [], ◌∷◌, map, ◌==◌,
  includes, select, arith, ◌&&◌, Option-cases, inl, inr,
}
use chronos_job_scheduler.Schema.{Db, OrgMembership, member}
use chronos_job_scheduler.Errors.{Result, ok, err, ◌>>=◌, or_fail, Thrown, chronos_error, not_found}
use chronos_job_scheduler.Rbac.{find_membership}
use chronos_job_scheduler.Rbac.Roles.{HasRole, member_le}
use chronos_job_scheduler.Scope.{org_ids, in_orgs, require_membership}

abbrev pub is_ok {ℓ} : {A : Type ℓ} → Result A → Bool
is_ok (err e) = false
is_ok (ok a) = true

-- A handler that ends by building its answer fails only as the part before does.
pub is_ok-answer {ℓ κ} :
    {A : Type ℓ} {B : Type κ} (r : Result A) (answer : A → B)
    → is_ok (r >>= λ a. ok (answer a)) ≡ is_ok r
is_ok-answer (err e) answer = refl
is_ok-answer (ok a) answer = refl

includes-org_ids :
    (user org : ℕ) (ms : List OrgMembership) (e : Thrown)
    → includes org (map (λ (m : OrgMembership). m.org_id) (select (λ m. m.user_id == user) ms))
      ≡ is_ok (or_fail (find_first (λ m. m.org_id == org && m.user_id == user) ms) e)
includes-org_ids user org [] e = refl
includes-org_ids user org (m ∷ ms) e = ground (arith, includes-org_ids user org ms e)

-- A listing shows the rows of an organization exactly if a single row of it is shown.
pub in_orgs-require_membership :
    (user : ℕ) (org : Option ℕ) (db : Db)
    → in_orgs (org_ids user db) org ≡ is_ok (require_membership user org db)
in_orgs-require_membership user none db = refl
in_orgs-require_membership user (some org) db =
    includes-org_ids user org db.memberships (chronos_error not_found)

-- What is found under the membership test is for members of the organization.
pub require_membership-HasRole :
    (user : ℕ) (org : Option ℕ) (db : Db) {m : OrgMembership}
    → require_membership user org db ≡ ok m
    → HasRole db user member org
require_membership-HasRole user none db h = cc
require_membership-HasRole user (some o) db h = elim (Option-cases (find_membership o user db)) [
  | inl missing ↦
      let refused : require_membership user (some o) db ≡ err (chronos_error not_found) =
        rw missing refl in
      cc
  | inr (m, found) ↦ (o, m, refl, found, member_le m.role)
]
