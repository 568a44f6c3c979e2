-- ===== src/Queues/Stats/Statuses.antt =====
-- api/src/routes/queues.ts: a queue's jobs by status, against counting them.
use chronos_job_scheduler.Prelude.{
  ℕ, ◌+◌, ◌≡◌, refl, ap, sym, ◌∙◌, Bool, true, false, ◌&&◌, ◌||◌, Bool-cases, Option, some,
  Option-cases, List, [], ◌∷◌, map, ◌==◌, ==→eq, ltb, if◌then◌else◌, arith, select, count_where,
  exists_where, inl, inr,
}
use chronos_job_scheduler.Schema.{status_rank, same_status, Db, Job, JobStatus}
use chronos_job_scheduler.Errors.{ok}
use chronos_job_scheduler.Rbac.{find_queue}
use chronos_job_scheduler.Queues.Stats.{
  in_queue, count_status, statuses, Counts, set_count, assign_counts, sum_counts, QueueStats,
  stats_of, queue_stats,
}

count_status-same :
    (db : Db) (queue_id : ℕ) (s t : JobStatus)
    → same_status s t ≡ true
    → count_status db queue_id s ≡ count_status db queue_id t
count_status-same db queue_id s t same =
    ap (λ r. count_where (λ (j : Job). in_queue queue_id j && r == status_rank j.status) db.jobs)
      (==→eq (status_rank s) (status_rank t) same)

pub every_status : (s : JobStatus) → exists_where (λ t. same_status t s) statuses ≡ true
every_status JobStatus.queued = refl
every_status JobStatus.scheduled = refl
every_status JobStatus.claimed = refl
every_status JobStatus.running = refl
every_status JobStatus.completed = refl
every_status JobStatus.failed = refl
every_status JobStatus.dead_letter = refl
every_status JobStatus.cancelled = refl

abbrev groups_of : Db → ℕ → List JobStatus → List (JobStatus × ℕ)
groups_of db queue_id ss =
    select (λ (g : JobStatus × ℕ). ltb 0 g.1)
      (map (λ (s : JobStatus). (s, count_status db queue_id s)) ss)

-- What is assigned for a status: its count, if that is not 0.
abbrev pub counted : Bool → ℕ → Option ℕ → Option ℕ
counted listed n before = if listed && ltb 0 n then some n else before

-- Assigning one more status, where it is counted and where it is not.
counted-assigned :
    (same listed : Bool) (n m : ℕ) (before : Option ℕ)
    → (same ≡ true → n ≡ m)
    → ltb 0 n ≡ true
    → counted listed m (if same then some n else before) ≡ counted (same || listed) m before
counted-assigned true listed n m before e pos =
    rw (sym (e refl), pos) (elim (Bool-cases listed) [ inl h ↦ rw h refl | inr h ↦ rw h refl ])
counted-assigned false listed n m before e pos = refl

counted-skipped :
    (same listed : Bool) (n m : ℕ) (before : Option ℕ)
    → (same ≡ true → n ≡ m)
    → ltb 0 n ≡ false
    → counted listed m before ≡ counted (same || listed) m before
counted-skipped true listed n m before e zero =
    rw (sym (e refl), zero) (elim (Bool-cases listed) [ inl h ↦ rw h refl | inr h ↦ rw h refl ])
counted-skipped false listed n m before e zero = refl

pub assign_counts-groups_of :
    (db : Db) (queue_id : ℕ) (ss : List JobStatus) (before : Counts) (s : JobStatus)
    → assign_counts (groups_of db queue_id ss) before s
      ≡ counted (exists_where (λ t. same_status t s) ss) (count_status db queue_id s) (before s)
unfolding assign_counts
assign_counts-groups_of db queue_id [] before s = refl
assign_counts-groups_of db queue_id (t ∷ ss) before s =
    let n = count_status db queue_id t in
    let m = count_status db queue_id s in
    let listed = exists_where (λ t. same_status t s) ss in
    let e = count_status-same db queue_id t s in
    elim (Bool-cases (ltb 0 n)) [
      | inl pos ↦ rw pos (
          assign_counts-groups_of db queue_id ss (set_count t n before) s
          ∙ counted-assigned (same_status t s) listed n m (before s) e pos)
      | inr zero ↦ rw zero (
          assign_counts-groups_of db queue_id ss before s
          ∙ counted-skipped (same_status t s) listed n m (before s) e zero)
    ]

sum_of : (JobStatus → ℕ) → List JobStatus → ℕ
sum_of f [] = 0
sum_of f (s ∷ ss) = f s + sum_of f ss

sum_of-add :
    (f g : JobStatus → ℕ) (ss : List JobStatus)
    → sum_of (λ s. f s + g s) ss ≡ sum_of f ss + sum_of g ss
unfolding sum_of
sum_of-add f g [] = refl
sum_of-add f g (s ∷ ss) = omega (arith, sum_of-add f g ss)

sum_of-zero : (ss : List JobStatus) → sum_of (λ s. 0) ss ≡ 0
unfolding sum_of
sum_of-zero [] = refl
sum_of-zero (s ∷ ss) = omega (arith, sum_of-zero ss)

sum_counts-groups_of :
    (db : Db) (queue_id : ℕ) (ss : List JobStatus) (total : ℕ)
    → sum_counts total (groups_of db queue_id ss) ≡ total + sum_of (count_status db queue_id) ss
unfolding sum_counts sum_of
sum_counts-groups_of db queue_id [] total = omega arith
sum_counts-groups_of db queue_id (t ∷ ss) total =
    let n = count_status db queue_id t in
    elim (Bool-cases (ltb 0 n)) [
      | inl pos ↦ rw pos (sum_counts-groups_of db queue_id ss (total + n) ∙ omega arith)
      | inr zero ↦ rw zero (sum_counts-groups_of db queue_id ss total ∙ ground (arith, zero))
    ]

-- A job has exactly one status.
one_status : (t : JobStatus) → sum_of (λ s. if same_status s t then 1 else 0) statuses ≡ 1
unfolding sum_of
one_status JobStatus.queued = refl
one_status JobStatus.scheduled = refl
one_status JobStatus.claimed = refl
one_status JobStatus.running = refl
one_status JobStatus.completed = refl
one_status JobStatus.failed = refl
one_status JobStatus.dead_letter = refl
one_status JobStatus.cancelled = refl

abbrev count_jobs : List Job → ℕ → JobStatus → ℕ
count_jobs jobs queue_id s =
    count_where (λ (j : Job). in_queue queue_id j && same_status s j.status) jobs

sum_of-count_jobs :
    (queue_id : ℕ) (jobs : List Job)
    → sum_of (count_jobs jobs queue_id) statuses ≡ count_where (in_queue queue_id) jobs
sum_of-count_jobs queue_id [] = sum_of-zero statuses
sum_of-count_jobs queue_id (j ∷ jobs) =
    sum_of-add (λ s. if in_queue queue_id j && same_status s j.status then 1 else 0)
      (count_jobs jobs queue_id) statuses
    ∙ elim (Bool-cases (in_queue queue_id j)) [
      | inl here ↦ rw here (omega (arith, one_status j.status, sum_of-count_jobs queue_id jobs))
      | inr other ↦ rw other (omega (arith, sum_of-zero statuses, sum_of-count_jobs queue_id jobs))
    ]

stats_of-counts :
    (now id : ℕ) (db : Db)
    → ((stats_of now id db).total_jobs ≡ count_where (in_queue id) db.jobs)
      × ((s : JobStatus) → (stats_of now id db).by_status s ≡ some (count_status db id s))
unfolding stats_of
stats_of-counts now id db = (
  sum_counts-groups_of db id statuses 0 ∙ omega (arith, sum_of-count_jobs id db.jobs),
  λ s. assign_counts-groups_of db id statuses (λ t. some 0) s ∙ rw (every_status s) (ground arith),
)

-- The statistics of a queue that exists: `totalJobs` is the number of its jobs, and `byStatus` has for every
-- status the number of its jobs that have it.
pub queue_stats-counts :
    (now id : ℕ) (db : Db) {stats : QueueStats}
    → queue_stats now id db ≡ ok stats
    → (stats.total_jobs ≡ count_where (in_queue id) db.jobs)
      × ((s : JobStatus) → stats.by_status s ≡ some (count_status db id s))
unfolding queue_stats
queue_stats-counts now id db {stats} answered = elim (Option-cases (find_queue id db)) [
  | inl missing ↦ let met = rw (queue_stats, missing) at answered in cc
  | inr (q, found) ↦
      let e : ok (stats_of now id db) ≡ ok stats = rw (queue_stats, found) at answered in
      let same : stats_of now id db ≡ stats = cc in rw (sym same) (stats_of-counts now id db)
]
