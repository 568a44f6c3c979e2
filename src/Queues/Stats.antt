-- ===== src/Queues/Stats.antt =====
-- api/src/routes/queues.ts: the handlers that only read, `GET /queues/:id/stats` and the list of a
-- project's queues, with the counts that `groupBy` gives.
pub mod Statuses
pub mod Counts
mod Tests
use chronos_job_scheduler.Prelude.{
  ℕ, ◌+◌, ◌*◌, ◌-◌, ◌/◌, Bool, true, false, ◌&&◌, ◌||◌, Option, none, some, List, [], ◌∷◌, ◌++◌,
  map, ◌==◌, leb, ltb, if◌then◌else◌, length, select, count_where, order_by,
}
use chronos_job_scheduler.Schema.{same_status, Db, Job, JobStatus, Queue}
use chronos_job_scheduler.Errors.{Result, ok, ◌>>=◌, or_fail, chronos_error, not_found}
use chronos_job_scheduler.Rbac.{find_project, find_queue}
use chronos_job_scheduler.Pagination.{parse_pagination, build_meta}
use chronos_job_scheduler.Listing.{Listing, page_of}

abbrev pub statuses : List JobStatus
statuses =
    JobStatus.queued ∷ JobStatus.scheduled ∷ JobStatus.claimed ∷ JobStatus.running
    ∷ JobStatus.completed ∷ JobStatus.failed ∷ JobStatus.dead_letter ∷ JobStatus.cancelled ∷ []

abbrev pub in_queue : ℕ → Job → Bool
in_queue queue_id j = j.queue_id == queue_id

-- How many of a queue's jobs have the status.
abbrev pub count_status : Db → ℕ → JobStatus → ℕ
count_status db queue_id s =
    count_where (λ (j : Job). in_queue queue_id j && same_status s j.status) db.jobs

-- `groupBy({ by: ['status'], where: { queueId } })`: the statuses that occur, with their counts.
abbrev pub group_by_status : Db → ℕ → List (JobStatus × ℕ)
group_by_status db queue_id =
    select (λ (g : JobStatus × ℕ). ltb 0 g.1)
      (map (λ (s : JobStatus). (s, count_status db queue_id s)) statuses)

-- `Record<string, number>`
abbrev pub Counts : Type 0
Counts = JobStatus → Option ℕ

abbrev pub set_count : JobStatus → ℕ → Counts → Counts
set_count s n counts t = if same_status s t then some n else counts t

-- The loop over the groups.
pub assign_counts : List (JobStatus × ℕ) → Counts → Counts
assign_counts [] counts = counts
assign_counts ((s, n) ∷ groups) counts = assign_counts groups (set_count s n counts)

pub sum_counts : ℕ → List (JobStatus × ℕ) → ℕ
sum_counts total [] = total
sum_counts total ((s, n) ∷ groups) = sum_counts (total + n) groups

-- `jobsPerMinute` is counted in tenths.
pub record QueueStats : Type 0 where
  pub total_jobs : ℕ
  pub by_status : Counts
  pub jobs_per_minute : ℕ

abbrev pub is_ended : JobStatus → Bool
is_ended JobStatus.completed = true
is_ended JobStatus.failed = true
is_ended _ = false

-- `Math.round` of a quotient.
abbrev pub round_div : ℕ → ℕ → ℕ
round_div a b = (2 * a + b) / (2 * b)

-- The answer for a queue that is there.
pub stats_of : ℕ → ℕ → Db → QueueStats
unfolding assign_counts sum_counts
stats_of now id db =
    let groups = group_by_status db id in
    let recent =
      count_where
        (λ (j : Job).
          in_queue id j && (is_ended j.status && leb (now - 5 * 60 * 1000) j.updated_at))
        db.jobs in
    record {
      total_jobs = sum_counts 0 groups;
      by_status = assign_counts groups (λ s. some 0);
      jobs_per_minute = round_div (recent * 10) 5;
    }

-- GET /queues/:id/stats
pub queue_stats : ℕ → ℕ → Db → Result QueueStats
unfolding stats_of
queue_stats now id db = do
  queue ← or_fail (find_queue id db) (chronos_error not_found)
  ok (stats_of now id db)

-- `orderBy: [{ priority: 'desc' }, { createdAt: 'asc' }]`
abbrev pub listed_before : Queue → Queue → Bool
listed_before a b =
    ltb b.priority a.priority || (a.priority == b.priority && leb a.created_at b.created_at)

pub queues_of : ℕ → Db → List Queue
queues_of project_id db =
    order_by listed_before (select (λ q. q.project_id == project_id) db.queues)

-- `groupBy({ by: ['queueId', 'status'], where: { queueId: { in: queueIds } } })`
abbrev pub group_by_queue : Db → List ℕ → List (ℕ × (JobStatus × ℕ))
group_by_queue db [] = []
group_by_queue db (id ∷ ids) =
    map (λ (g : JobStatus × ℕ). (id, g)) (group_by_status db id) ++ group_by_queue db ids

-- `statusCountMap`; a queue without an entry has an empty record, as `?? {}` makes it.
abbrev pub CountMap : Type 0
CountMap = ℕ → Counts

abbrev pub set_row : ℕ → JobStatus → ℕ → CountMap → CountMap
set_row id s n counts queue = if id == queue then set_count s n (counts queue) else counts queue

pub fill_map : List (ℕ × (JobStatus × ℕ)) → CountMap → CountMap
fill_map [] counts = counts
fill_map ((id, (s, n)) ∷ rows) counts = fill_map rows (set_row id s n counts)

pub record QueueSummary : Type 0 where
  pub queue : Queue
  pub total_jobs : ℕ
  pub jobs_by_status : Counts

abbrev pub summarize_queue : Db → CountMap → Queue → QueueSummary
summarize_queue db counts q = record {
  queue = q;
  total_jobs = count_where (in_queue q.id) db.jobs;
  jobs_by_status = counts q.id;
}

-- The answer for a project that is there.
pub listing_of : ℕ → Option (List ℕ) → Option (List ℕ) → Db → Listing QueueSummary
unfolding queues_of fill_map
listing_of project_id page limit db =
    let p = parse_pagination page limit in
    let all = queues_of project_id db in
    let queues = page_of p all in
    let counts =
      fill_map (group_by_queue db (map (λ (q : Queue). q.id) queues)) (λ queue s. none) in
    record {
      rows = map (summarize_queue db counts) queues;
      meta = build_meta (length all) p.page p.limit;
    }

-- GET /projects/:projectId/queues
pub list_queues : ℕ → Option (List ℕ) → Option (List ℕ) → Db → Result (Listing QueueSummary)
unfolding listing_of
list_queues project_id page limit db = do
  project ← or_fail (find_project project_id db) (chronos_error not_found)
  ok (listing_of project_id page limit db)
