-- ===== src/Queues/Stats/Counts.antt =====
-- api/src/routes/queues.ts: the numbers that a listing of queues shows, against counting the jobs.
use chronos_job_scheduler.Prelude.{
  ℕ, ◌≡◌, refl, ap, sym, ◌∙◌, Bool, true, false, Bool-cases, Option, none, Option-cases, List, [],
  ◌∷◌, ◌++◌, map, ◌==◌, ==→eq, ==_self, ltb, if◌then◌else◌, arith, All, All-map, count_where,
  includes, inl, inr,
}
use chronos_job_scheduler.Schema.{Db, JobStatus, Queue}
use chronos_job_scheduler.Errors.{ok}
use chronos_job_scheduler.Rbac.{find_project}
use chronos_job_scheduler.Listing.{Listing, page_of}
use chronos_job_scheduler.Pagination.{parse_pagination}
use chronos_job_scheduler.Queues.{or_else}
use chronos_job_scheduler.Queues.Stats.{
  in_queue, count_status, statuses, group_by_status, assign_counts, queues_of, group_by_queue,
  CountMap, set_row, fill_map, QueueSummary, listing_of, summarize_queue, list_queues,
}
use chronos_job_scheduler.Queues.Stats.Statuses.{counted, every_status, assign_counts-groups_of}

map-append-fill :
    (xs ys : List (ℕ × (JobStatus × ℕ))) (counts : CountMap)
    → fill_map (xs ++ ys) counts ≡ fill_map ys (fill_map xs counts)
unfolding fill_map
map-append-fill [] ys counts = refl
map-append-fill ((id, (s, n)) ∷ xs) ys counts = map-append-fill xs ys (set_row id s n counts)

fill_map-groups :
    (id q : ℕ) (groups : List (JobStatus × ℕ)) (counts : CountMap) (s : JobStatus)
    → fill_map (map (λ (g : JobStatus × ℕ). (id, g)) groups) counts q s
      ≡ (if id == q then assign_counts groups (counts q) s else counts q s)
unfolding fill_map assign_counts
fill_map-groups id q [] counts s = elim (Bool-cases (id == q)) [
  | inl e ↦ rw e refl
  | inr e ↦ rw e refl
]
fill_map-groups id q ((t, n) ∷ groups) counts s =
    fill_map-groups id q groups (set_row id t n counts) s
    ∙ elim (Bool-cases (id == q)) [ inl e ↦ rw e refl | inr e ↦ rw e refl ]

counted-twice :
    (listed : Bool) (m : ℕ) (before : Option ℕ)
    → counted listed m (counted true m before) ≡ counted true m before
counted-twice true m before = elim (Bool-cases (ltb 0 m)) [ inl e ↦ rw e refl | inr e ↦ rw e refl ]
counted-twice false m before = refl

counted-queue :
    (db : Db) (id : ℕ) (ids : List ℕ) (counts : CountMap) (q : ℕ) (s : JobStatus)
    → counted
        (includes q ids)
        (count_status db q s)
        (if id == q then assign_counts (group_by_status db id) (counts q) s else counts q s)
      ≡ counted (includes q (id ∷ ids)) (count_status db q s) (counts q s)
counted-queue db id ids counts q s =
    let m = count_status db q s in
    let assigned : assign_counts (group_by_status db id) (counts q) s
        ≡ counted true (count_status db id s) (counts q s) =
      assign_counts-groups_of db id statuses (counts q) s
      ∙ ap (λ b. counted b (count_status db id s) (counts q s)) (every_status s) in
    elim (Bool-cases (id == q)) [
      | inl same ↦
          rw (same, assigned, ==→eq id q same, ==_self q)
            (counted-twice (includes q ids) m (counts q s))
      | inr other ↦ let apart : (q == id) ≡ false = ground (arith, other) in rw (other, apart) refl
    ]

fill_map-group_by_queue :
    (db : Db) (ids : List ℕ) (counts : CountMap) (q : ℕ) (s : JobStatus)
    → fill_map (group_by_queue db ids) counts q s
      ≡ counted (includes q ids) (count_status db q s) (counts q s)
unfolding fill_map
fill_map-group_by_queue db [] counts q s = refl
fill_map-group_by_queue db (id ∷ ids) counts q s =
    let rows = map (λ (g : JobStatus × ℕ). (id, g)) (group_by_status db id) in
    ap (λ (c : CountMap). c q s) (map-append-fill rows (group_by_queue db ids) counts)
    ∙ fill_map-group_by_queue db ids (fill_map rows counts) q s
    ∙ ap (counted (includes q ids) (count_status db q s))
        (fill_map-groups id q (group_by_status db id) counts s)
    ∙ counted-queue db id ids counts q s

includes-map :
    (qs : List Queue) → All (λ (q : Queue). includes q.id (map (λ (p : Queue). p.id) qs) ≡ true) qs
includes-map [] = tt
includes-map (q ∷ qs) =
    (rw (==_self q.id) refl, All-map _ _ qs (λ p h. ground (arith, h)) (includes-map qs))

-- The counts of a listed queue are those of its jobs.
abbrev pub IsCounted : Db → QueueSummary → Type 0
IsCounted db row =
    (row.total_jobs ≡ count_where (in_queue row.queue.id) db.jobs)
    × ((s : JobStatus) → or_else (row.jobs_by_status s) 0 ≡ count_status db row.queue.id s)

summaries-IsCounted :
    (db : Db) (ids : List ℕ) (qs : List Queue)
    → All (λ (q : Queue). includes q.id ids ≡ true) qs
    → All
        (IsCounted db)
        (map (summarize_queue db (fill_map (group_by_queue db ids) (λ queue s. none))) qs)
summaries-IsCounted db ids [] h = tt
summaries-IsCounted db ids (q ∷ qs) h = (
  (
    refl,
    λ s.
        ap (λ o. or_else o 0) (fill_map-group_by_queue db ids (λ queue t. none) q.id s)
        ∙ rw h.0 (ground (arith, Bool-cases (ltb 0 (count_status db q.id s)))),
  ),
  summaries-IsCounted db ids qs h.1,
)

listing_of-IsCounted :
    (project_id : ℕ) (page limit : Option (List ℕ)) (db : Db)
    → All (IsCounted db) (listing_of project_id page limit db).rows
unfolding listing_of
listing_of-IsCounted project_id page limit db =
    let queues = page_of (parse_pagination page limit) (queues_of project_id db) in
    summaries-IsCounted db (map (λ (q : Queue). q.id) queues) queues (includes-map queues)

-- Every row of a listing of a project's queues: `totalJobs` is the number of its queue's jobs, and what
-- `jobsByStatus` has for a status, 0 where it has nothing, is the number of them that have it.
pub list_queues-counts :
    (project_id : ℕ) (page limit : Option (List ℕ)) (db : Db) {answer : Listing QueueSummary}
    → list_queues project_id page limit db ≡ ok answer
    → All (IsCounted db) answer.rows
unfolding list_queues
list_queues-counts project_id page limit db {answer} answered =
    elim (Option-cases (find_project project_id db)) [
      | inl missing ↦ let met = rw (list_queues, missing) at answered in cc
      | inr (project, found) ↦
          let e : ok (listing_of project_id page limit db) ≡ ok answer =
            rw (list_queues, found) at answered in
          let same : listing_of project_id page limit db ≡ answer = cc in
          rw (sym same) (listing_of-IsCounted project_id page limit db)
    ]
