-- ===== src/Projects.antt =====
-- api/src/routes/projects.ts: the handlers, for the user that `requireAuth` attached. The identifier
-- and the API key of a new row, which the database makes, are arguments. Identifiers are never empty.
pub mod Visible
pub mod Members
mod Tests
use mathlib.Core.List.{map}
use chronos_job_scheduler.Prelude.{
  includes, ℕ, String, Bool, ◌&&◌, Option, some, none, List, [], ◌∷◌, ◌++◌, ◌==◌, leb, codes,
  utf16_length, count_where, select, order_by, find_unique,
}
use chronos_job_scheduler.Schema.{Db, Project, Queue, RetryPolicy}
use chronos_job_scheduler.Errors.{
  Result, ok, err, ◌>>=◌, ◌>>◌, guard, or_fail, chronos_error, not_found, validation_error,
}
use chronos_job_scheduler.Rbac.{find_project, find_membership}
use chronos_job_scheduler.Pagination.{ParsedPagination, parse_pagination}
use chronos_job_scheduler.Listing.{Listing, listing}
use chronos_job_scheduler.Scope.{org_ids, require_membership}

-- `createProjectSchema`
abbrev pub is_valid_name : String → Bool
is_valid_name s = leb 1 (utf16_length (codes s)) && leb (utf16_length (codes s)) 128

abbrev pub new_project : ℕ → ℕ → ℕ → ℕ → String → Project
new_project now id api_key org_id name = record {
  id = id;
  org_id = org_id;
  name = name;
  api_key = api_key;
  created_at = now;
}

-- POST /projects: any member of the organization may.
pub create_project : ℕ → ℕ → ℕ → ℕ → ℕ → String → Db → Result Db
create_project user_id now id api_key org_id name db = do
  guard (is_valid_name name) (chronos_error validation_error)
  membership ← or_fail (find_membership org_id user_id db) (chronos_error not_found)
  ok (record db { projects = db.projects ++ new_project now id api_key org_id name ∷ [] })

pub record ProjectSummary : Type 0 where
  pub id : ℕ
  pub org_id : ℕ
  pub name : String
  pub created_at : ℕ
  pub queue_count : ℕ

abbrev pub count_queues : ℕ → Db → ℕ
count_queues id db = count_where (λ q. q.project_id == id) db.queues

pub summarize : Db → Project → ProjectSummary
summarize db p = record {
  id = p.id;
  org_id = p.org_id;
  name = p.name;
  created_at = p.created_at;
  queue_count = count_queues p.id db;
}

-- `orderBy: { createdAt: 'desc' }`
abbrev pub newest_first : Project → Project → Bool
newest_first a b = leb b.created_at a.created_at

-- The rows that the listing pages through.
pub visible_projects : ℕ → Db → List Project
visible_projects user_id db =
    order_by newest_first (select (λ p. includes p.org_id (org_ids user_id db)) db.projects)

-- GET /projects
pub list_projects : ℕ → Option (List ℕ) → Option (List ℕ) → Db → Listing ProjectSummary
unfolding visible_projects summarize
list_projects user_id page limit db =
    listing (summarize db) (parse_pagination page limit) (visible_projects user_id db)

-- A queue of a project, with the number of its jobs.
abbrev pub with_job_count : Db → Queue → Queue × ℕ
with_job_count db q = (q, count_where (λ j. j.queue_id == q.id) db.jobs)

pub record ProjectDetail : Type 0 where
  pub project : Project
  pub queues : List (Queue × ℕ)
  pub queue_count : ℕ
  pub policy_count : ℕ

abbrev pub newest_queue_first : Queue → Queue → Bool
newest_queue_first a b = leb b.created_at a.created_at

pub describe : Db → Project → ProjectDetail
describe db p = record {
  project = p;
  queues =
      map (with_job_count db)
        (order_by newest_queue_first (select (λ q. q.project_id == p.id) db.queues));
  queue_count = count_queues p.id db;
  policy_count = count_where (λ r. r.project_id == p.id) db.retry_policies;
}

-- GET /projects/:id
pub get_project : ℕ → ℕ → Db → Result ProjectDetail
unfolding describe
get_project user_id id db = do
  project ← or_fail (find_project id db) (chronos_error not_found)
  membership ← require_membership user_id (some project.org_id) db
  ok (describe db project)
