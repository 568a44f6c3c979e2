-- ===== src/Jobs/Reads/Scoped.antt =====
-- api/src/routes/jobs.ts: which jobs a user is shown, by the listing and one at a time.
use chronos_job_scheduler.Prelude.{
  select, ℕ, ◌≡◌, refl, ap, sym, ◌∙◌, Bool, true, false, ◌&&◌, Option, none, some, Option-cases,
  List, ◌==◌, if◌then◌else◌, count_where, or_false, Distinct, keys, inl, inr, ◌⊎◌,
  count_where-key_select, count_where-order_by,
}
use chronos_job_scheduler.Schema.{Db, Job, JobStatus, OrgMembership}
use chronos_job_scheduler.Errors.{Result, ok, err, chronos_error, not_found}
use chronos_job_scheduler.Rbac.{find_job, org_of_job, find_membership}
use chronos_job_scheduler.Scope.{org_ids, in_orgs, require_membership}
use chronos_job_scheduler.Scope.Members.{is_ok, is_ok-answer, in_orgs-require_membership}
use chronos_job_scheduler.Pagination.Digits.{digits}
use chronos_job_scheduler.Listing.{Listing}
use chronos_job_scheduler.Jobs.Reads.{
  [], JobQuery, is_asked, returned_before, visible_jobs, find_visible, get_job, list_executions,
  list_logs, describe_job,
}

visible-get_job :
    (user id : ℕ) (q : JobQuery) (status : Option JobStatus) (db : Db)
    → or_false
        (λ (j : Job). in_orgs (org_ids user db) (org_of_job db (some j)) && is_asked q status j)
        (find_job id db)
      ≡ (is_ok (get_job user id db) && or_false (is_asked q status) (find_job id db))
unfolding get_job find_visible
visible-get_job user id q status db = elim (Option-cases (find_job id db)) [
  | inl missing ↦ rw missing refl
  | inr (j, found) ↦
      let org = org_of_job db (some j) in
      let allowed = in_orgs-require_membership user org db in
      rw found (
        ap (λ b. b && is_asked q status j)
          (allowed ∙ sym (is_ok-answer _ (λ m. j)) ∙ sym (is_ok-answer _ (describe_job db))))
]

-- Of jobs with distinct identifiers, the listing for a query shows to a user the one with an identifier
-- once if the user may fetch it by the identifier and it meets the query's conditions, and else not
-- at all.
pub visible_jobs-get_job :
    (tie : Job → ℕ) (user id : ℕ) (q : JobQuery) (status : Option JobStatus) (db : Db)
    → Distinct (keys (λ (j : Job). j.id) db.jobs)
    → count_where (λ j. j.id == id) (visible_jobs tie user q status db) ≡ (
        if is_ok (get_job user id db) && or_false (is_asked q status) (find_job id db)
        then 1
        else 0)
unfolding visible_jobs
visible_jobs-get_job tie user id q status db distinct =
    count_where-order_by (returned_before tie) (λ j. j.id == id) _
    ∙ count_where-key_select (λ (j : Job). j.id) _ id db.jobs distinct
    ∙ ap (λ b. if b then 1 else 0) (visible-get_job user id q status db)

-- The page of a listing, and the number of its pages, of an answer that is one.
abbrev pub rows_of {ℓ} : {A : Type ℓ} → Result (Listing A) → List A
rows_of (err e) = []
rows_of (ok l) = l.rows

abbrev pub page_count {ℓ} : {A : Type ℓ} → Result (Listing A) → ℕ
page_count (err e) = 0
page_count (ok l) = l.meta.total_pages

-- The query with its page and limit in decimal.
abbrev pub at_page : JobQuery → ℕ → ℕ → JobQuery
at_page q limit page = record q { page = some (digits page); limit = some (digits limit) }

-- The rows that a query asks for, before they are ordered.
abbrev pub asked_for : ℕ → JobQuery → Option JobStatus → Db → List Job
asked_for user q status db =
    select (λ j. in_orgs (org_ids user db) (org_of_job db (some j)) && is_asked q status j) db.jobs

-- The job's organization is one of the user's.
abbrev pub is_in_orgs_of : ℕ → Db → Job → Bool
is_in_orgs_of user db j = in_orgs (org_ids user db) (org_of_job db (some j))

require_membership-cases :
    (user : ℕ) (org : Option ℕ) (db : Db)
    → ((m : OrgMembership) × (require_membership user org db ≡ ok m))
      ⊎ (require_membership user org db ≡ err (chronos_error not_found))
require_membership-cases user none db = inr refl
require_membership-cases user (some org) db = elim (Option-cases (find_membership org user db)) [
  | inl none_is ↦ rw none_is (inr refl)
  | inr (m, found) ↦ rw found (inl (m, refl))
]

find_visible-cases :
    (user id : ℕ) (db : Db)
    → ((j : Job) × (find_job id db ≡ some j)
        × (is_in_orgs_of user db j ≡ true)
        × (find_visible user id db ≡ ok j))
      ⊎ ((or_false (is_in_orgs_of user db) (find_job id db) ≡ false)
          × (find_visible user id db ≡ err (chronos_error not_found)))
unfolding find_visible
find_visible-cases user id db = elim (Option-cases (find_job id db)) [
  | inl missing ↦ rw missing (inr (refl, refl))
  | inr (j, found) ↦
      let same = in_orgs-require_membership user (org_of_job db (some j)) db in
      elim (require_membership-cases user (org_of_job db (some j)) db) [
        | inl (m, member) ↦ rw (found, member) (inl (j, refl, same ∙ ap is_ok member, refl))
        | inr stranger ↦ rw (found, stranger) (inr (same ∙ ap is_ok stranger, refl))
      ]
]

-- For a job that exists and whose organization the user belongs to, the job, its executions and its
-- logs are all answered; for any other, all three are refused as not found, so that a job of another
-- organization is told from a missing one by none of them.
pub reads-not_found :
    (user id : ℕ) (page limit : Option (List ℕ)) (db : Db)
    → ((j : Job) × (find_job id db ≡ some j)
        × (is_in_orgs_of user db j ≡ true)
        × (get_job user id db ≡ ok (describe_job db j))
        × (is_ok (list_executions user id page limit db) ≡ true)
        × (is_ok (list_logs user id page limit db) ≡ true))
      ⊎ ((or_false (is_in_orgs_of user db) (find_job id db) ≡ false)
          × (get_job user id db ≡ err (chronos_error not_found))
          × (list_executions user id page limit db ≡ err (chronos_error not_found))
          × (list_logs user id page limit db ≡ err (chronos_error not_found)))
unfolding get_job list_executions list_logs
reads-not_found user id page limit db = elim (find_visible-cases user id db) [
  | inl (j, found, member, seen) ↦ rw seen (inl (j, found, member, refl, refl, refl))
  | inr (hidden, refused) ↦ rw refused (inr (hidden, refl, refl, refl))
]
