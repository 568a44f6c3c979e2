-- ===== src/Dashboard/Totals.antt =====
-- api/src/routes/dashboard.ts against GET /jobs of api/src/routes/jobs.ts: the summary's numbers and
-- the totals of the listings.
use chronos_job_scheduler.Prelude.{
  count_where-or, ℕ, ◌+◌, ◌≡◌, refl, ap, sym, ◌∙◌, String, Bool, false, ◌&&◌, ◌||◌, Bool-cases,
  Option, none, some, Option-cases, List, [], ◌∷◌, map, ◌==◌, ==→eq, if◌then◌else◌, arith, includes,
  Distinct, keys, select, count_where, or_false, find_unique, find_unique-fresh, length,
  length-order_by, count_where-eq-length, inl, inr,
}
use chronos_job_scheduler.Schema.{Db, Job, JobStatus, Queue, Project, same_status}
use chronos_job_scheduler.Errors.{Result, ok, err}
use chronos_job_scheduler.Rbac.{org_of_project, find_project, find_queue, org_of_job}
use chronos_job_scheduler.Scope.{org_ids, in_orgs}
use chronos_job_scheduler.Listing.{Listing}
use chronos_job_scheduler.Pagination.{build_meta}
use chronos_job_scheduler.Jobs.Reads.{
  status_filter, JobQuery, JobSummary, list_jobs, visible_jobs, is_asked, returned_before,
}
use chronos_job_scheduler.Dashboard.{project_ids, queue_ids, count_jobs, summary}

-- A key is among those of the selected rows if the row found under it is selected.
includes-selected {ℓ} :
    {A : Type ℓ} (key : A → ℕ) (p : A → Bool) (k : ℕ) (xs : List A)
    → Distinct (keys key xs)
    → includes k (map key (select p xs)) ≡ or_false p (find_unique key k xs)
includes-selected key p k [] d = refl
includes-selected key p k (x ∷ xs) d = elim (Bool-cases (k == key x)) [
  | inl e ↦ ground (
    arith,
    ==→eq k (key x) e,
    find_unique-fresh key (key x) xs d.0,
    includes-selected key p (key x) xs d.1,
  )
  | inr e ↦ ground (arith, includes-selected key p k xs d.1)
]

project-in_orgs :
    (orgs : List ℕ) (p : Option Project)
    → or_false (λ (p : Project). includes p.org_id orgs) p ≡ in_orgs orgs (org_of_project p)
project-in_orgs orgs none = refl
project-in_orgs orgs (some p) = refl

-- The queries of the summary select the queues that the listings reach by a job's references.
queue_ids-in_orgs :
    (user : ℕ) (db : Db) (j : Job)
    → Distinct (keys (λ (p : Project). p.id) db.projects)
    → Distinct (keys (λ (q : Queue). q.id) db.queues)
    → includes j.queue_id (queue_ids user db) ≡ in_orgs (org_ids user db) (org_of_job db (some j))
queue_ids-in_orgs user db j projects queues =
    includes-selected (λ (q : Queue). q.id) (λ q. includes q.project_id (project_ids user db))
      j.queue_id db.queues queues
    ∙ elim (Option-cases (find_queue j.queue_id db)) [
      | inl missing ↦ rw missing refl
      | inr (q, found) ↦ rw found (
          includes-selected (λ (p : Project). p.id) (λ p. includes p.org_id (org_ids user db))
            q.project_id db.projects projects
          ∙ project-in_orgs (org_ids user db) (find_project q.project_id db))
    ]

count_where-cong {ℓ} :
    {A : Type ℓ} (p q : A → Bool) (xs : List A)
    → ((x : A) → p x ≡ q x)
    → count_where p xs ≡ count_where q xs
count_where-cong p q [] h = refl
count_where-cong p q (x ∷ xs) h =
    rw (h x) (ap (λ n. (if q x then 1 else 0) + n) (count_where-cong p q xs h))

-- A query for a status, and the total of its answer.
abbrev pub status_query : String → JobQuery
status_query text = record {
  queue_id = none;
  status = some text;
  type = none;
  batch_id = none;
  page = none;
  limit = none;
}

abbrev pub total_of : Result (Listing JobSummary) → ℕ
total_of (err e) = 0
total_of (ok l) = l.meta.total

total_of-visible_jobs :
    (tie : Job → ℕ) (user : ℕ) (q : JobQuery) (status : Option JobStatus) (db : Db)
    → length (visible_jobs tie user q status db)
      ≡ count_where
          (λ j. in_orgs (org_ids user db) (org_of_job db (some j)) && is_asked q status j)
          db.jobs
unfolding visible_jobs
total_of-visible_jobs tie user q status db =
    length-order_by (returned_before tie) _ ∙ sym (count_where-eq-length _ db.jobs)

-- The total of a listing by a status that the enumeration has, counted as the summary counts.
total_of-list_jobs :
    (tie : Job → ℕ) (user : ℕ) (text : String) (s : JobStatus) (db : Db)
    → Distinct (keys (λ (p : Project). p.id) db.projects)
    → Distinct (keys (λ (q : Queue). q.id) db.queues)
    → status_filter (some text) ≡ ok (some s)
    → total_of (list_jobs tie user (status_query text) db)
      ≡ count_jobs user (λ j. same_status s j.status) db
unfolding list_jobs visible_jobs build_meta
total_of-list_jobs tie user text s db projects queues known =
    rw (list_jobs, known)
      (total_of-visible_jobs tie user (status_query text) (some s) db
        ∙ count_where-cong _
            (λ (j : Job). includes j.queue_id (queue_ids user db) && same_status s j.status) db.jobs
            (λ j. rw (sym (queue_ids-in_orgs user db j projects queues)) (
              ground (
                arith,
                Bool-cases (includes j.queue_id (queue_ids user db)),
                Bool-cases (same_status s j.status),
              ))))

count_jobs-or :
    (user : ℕ) (s t : JobStatus) (db : Db)
    → ((j : Job) → (same_status s j.status && same_status t j.status) ≡ false)
    → count_jobs user (λ j. same_status s j.status || same_status t j.status) db
      ≡ count_jobs user (λ j. same_status s j.status) db
        + count_jobs user (λ j. same_status t j.status) db
count_jobs-or user s t db apart =
    let mine = λ (j : Job). includes j.queue_id (queue_ids user db) in
    count_where-cong _
      (λ (j : Job). mine j && same_status s j.status || mine j && same_status t j.status) db.jobs
      (λ j. ground (arith, Bool-cases (mine j)))
    ∙ count_where-or (λ (j : Job). mine j && same_status s j.status)
        (λ (j : Job). mine j && same_status t j.status) db.jobs
        (λ j. ground (arith, apart j, Bool-cases (mine j)))

-- Of projects and queues with distinct identifiers: the summary's numbers of queued, of running and of failed
-- jobs are the totals of the user's listings by status: `queued`, `claimed` with `running`, and `failed`
-- with `dead_letter`.
pub summary-list_jobs :
    (tie : String → Job → ℕ) (now midnight user : ℕ) (db : Db)
    → Distinct (keys (λ (p : Project). p.id) db.projects)
    → Distinct (keys (λ (q : Queue). q.id) db.queues)
    → let total : String → ℕ =
        λ text. total_of (list_jobs (tie text) user (status_query text) db) in
      let shown = summary now midnight user db in
      (shown.queued_jobs ≡ total "queued")
      × (shown.running_jobs ≡ total "claimed" + total "running")
      × (shown.failed_jobs ≡ total "failed" + total "dead_letter")
unfolding summary
summary-list_jobs tie now midnight user db projects queues = (
  sym (total_of-list_jobs (tie "queued") user "queued" JobStatus.queued db projects queues refl),
  rw
      (
        total_of-list_jobs (tie "claimed") user "claimed" JobStatus.claimed db projects queues refl,
        total_of-list_jobs (tie "running") user "running" JobStatus.running db projects queues refl,
      )
      (count_jobs-or user JobStatus.claimed JobStatus.running db (λ j. ground arith)),
  rw
      (
        total_of-list_jobs (tie "failed") user "failed" JobStatus.failed db projects queues refl,
        total_of-list_jobs (tie "dead_letter") user "dead_letter" JobStatus.dead_letter db projects
            queues refl,
      )
      (count_jobs-or user JobStatus.failed JobStatus.dead_letter db (λ j. ground arith)),
)
