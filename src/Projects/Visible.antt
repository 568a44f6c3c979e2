-- ===== src/Projects/Visible.antt =====
-- api/src/routes/projects.ts: which projects a user is shown, by the listing and one at a time.
use chronos_job_scheduler.Prelude.{
  String, sym, ℕ, String, ◌++◌, [], ◌∷◌, ==_self, sym, ◌≡◌, refl, ap, ◌∙◌, ◌≤◌, Bool-cases, none,
  some, Option-cases, List, map, ◌==◌, if◌then◌else◌, count_where, or_false, find_unique, Distinct,
  keys, inl, inr, arith, includes, count_where-key_select, count_where-order_by,
}
use chronos_job_scheduler.Scope.{org_ids}
use chronos_job_scheduler.Rbac.{find_project, find_membership}
use chronos_job_scheduler.Listing.Pages.{pages_up_to, requested_cover}
use chronos_job_scheduler.Pagination.Digits.{digits, parse_pagination-digits}
use chronos_job_scheduler.Schema.{Db, Project, OrgMembership}
use chronos_job_scheduler.Errors.{ok}
use chronos_job_scheduler.Scope.Members.{is_ok-answer, is_ok, in_orgs-require_membership}
use chronos_job_scheduler.Projects.{
  describe, create_project, newest_first, newest_first, visible_projects, get_project,
  list_projects, summarize, create_project, describe, new_project, is_valid_name,
}

-- The project under an identifier is in one of the user's organizations exactly if the user may fetch it.
in_orgs-get_project :
    (user id : ℕ) (db : Db)
    → or_false (λ (p : Project). includes p.org_id (org_ids user db)) (find_project id db)
      ≡ is_ok (get_project user id db)
unfolding get_project
in_orgs-get_project user id db = elim (Option-cases (find_project id db)) [
  | inl missing ↦ rw missing refl
  | inr (p, found) ↦
      rw found (in_orgs-require_membership user (some p.org_id) db ∙ sym (is_ok-answer _ _))
]

-- Of projects with distinct identifiers, the listing shows to a user the one with an identifier once
-- if the user may fetch it by the identifier, and else not at all.
pub visible_projects-get_project :
    (user id : ℕ) (db : Db)
    → Distinct (keys (λ (p : Project). p.id) db.projects)
    → count_where (λ p. p.id == id) (visible_projects user db)
      ≡ (if is_ok (get_project user id db) then 1 else 0)
unfolding visible_projects get_project
visible_projects-get_project user id db distinct =
    count_where-order_by newest_first (λ p. p.id == id) _
    ∙ count_where-key_select (λ (p : Project). p.id) (λ p. includes p.org_id (org_ids user db)) id
        db.projects distinct
    ∙ ap (λ b. if b then 1 else 0) (in_orgs-get_project user id db)

-- A client that asks for the pages 1 to `totalPages` with a limit from 1 to 100, in decimal, is shown
-- all projects of the user, in the order of the listing and each once.
pub list_projects-pages :
    (user limit : ℕ) (db : Db)
    → 1 ≤ limit
    → limit ≤ 100
    → pages_up_to
        (λ page. (list_projects user (some (digits page)) (some (digits limit)) db).rows)
        (list_projects user (some (digits 1)) (some (digits limit)) db).meta.total_pages
      ≡ map (summarize db) (visible_projects user db)
unfolding list_projects visible_projects summarize
list_projects-pages user limit db some_row few =
    rw (parse_pagination-digits 1 limit (omega arith) some_row few)
      (requested_cover (summarize db) (visible_projects user db) limit some_row few)

find_project-new :
    (p : Project) (k : ℕ) (ps : List Project)
    → find_unique (λ (q : Project). q.id) p.id ps ≡ none
    → find_unique (λ (q : Project). q.id) k (ps ++ p ∷ [])
      ≡ (if k == p.id then some p else find_unique (λ (q : Project). q.id) k ps)
find_project-new p k [] fresh = ground arith
find_project-new p k (q ∷ ps) fresh = ground (arith, find_project-new p k ps)

create_project-ok :
    (user now id key org : ℕ) (name : String) (db : Db) {db' : Db}
    → create_project user now id key org name db ≡ ok db'
    → (db'.projects ≡ db.projects ++ new_project now id key org name ∷ [])
      × ((m : OrgMembership) × (find_membership org user db' ≡ some m))
unfolding create_project
create_project-ok user now id key org name db {db'} h =
    elim (Option-cases (find_membership org user db)) [
      | inl stranger ↦ ground (arith, Bool-cases (is_valid_name name))
      | inr (m, belongs) ↦
          let eqs : (db'.projects ≡ db.projects ++ new_project now id key org name ∷ [])
              × (db'.memberships ≡ db.memberships) =
            ground (arith, Bool-cases (is_valid_name name)) in
          (eqs.0, (m, rw eqs.1 belongs))
    ]

-- A project that is created under a new identifier is what the same user then gets for the identifier,
-- and all others are found as before.
pub create_project-get_project :
    (user now id key org : ℕ) (name : String) (db : Db) {db' : Db}
    → find_project id db ≡ none
    → create_project user now id key org name db ≡ ok db'
    → (get_project user id db' ≡ ok (describe db' (new_project now id key org name)))
      × ((k : ℕ)
          → find_project k db'
            ≡ (if k == id then some (new_project now id key org name) else find_project k db))
unfolding create_project get_project
create_project-get_project user now id key org name db {db'} fresh created =
    let (rows, (m, belongs)) = create_project-ok user now id key org name db created in
    let row = new_project now id key org name in
    let others : (k : ℕ) → find_project k db' ≡ (if k == id then some row else find_project k db) =
      λ k. rw rows (find_project-new row k db.projects fresh) in
    let found : find_project id db' ≡ some row = others id ∙ rw (==_self id) refl in
    (rw (found, belongs) refl, others)
