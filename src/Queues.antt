-- ===== src/Queues.antt =====
-- api/src/routes/queues.ts: the handlers that make and change a queue, once `requireAuth` and
-- `requireOrgMember` have let the request through. The numbers of a body are naturals; Zod refuses any other.
pub mod Stats
pub mod Settings
pub mod Kept
mod Tests
use chronos_job_scheduler.Prelude.{
  ℕ, ◌+◌, ◌*◌, ◌-◌, ◌/◌, String, str_eq, Bool, true, false, ◌&&◌, ◌||◌, not, Option, none, some,
  List, [], ◌∷◌, ◌++◌, map, ◌==◌, leb, ltb, if◌then◌else◌, codes, utf16_length, length, select,
  count_where, exists_where, update_where, order_by, includes,
}
use chronos_job_scheduler.Schema.{same_status, Db, Job, JobStatus, Queue, RetryPolicy}
use chronos_job_scheduler.Errors.{
  Result, ok, err, ◌>>=◌, ◌>>◌, guard, or_fail, Thrown, chronos_error, unexpected, unique_violation,
  not_found, validation_error,
}
use chronos_job_scheduler.Rbac.{find_project, find_queue}
use chronos_job_scheduler.Pagination.{
  ParsedPagination, PaginationMeta, parse_pagination, build_meta,
}
use chronos_job_scheduler.Listing.{Listing, page_of}

pub record CreateQueue : Type 0 where
  pub name : String
  pub priority : Option ℕ
  pub concurrency_limit : Option ℕ
  pub default_retry_policy_id : Option ℕ

pub record UpdateQueue : Type 0 where
  pub priority : Option ℕ
  pub concurrency_limit : Option ℕ
  pub is_paused : Option Bool

-- `[a-z0-9_-]`, without regard to case.
abbrev pub is_name_char : ℕ → Bool
is_name_char c =
    (leb b'a' c && leb c b'z')
    || (leb b'A' c && leb c b'Z')
    || (leb b'0' c && leb c b'9')
    || c == b'_'
    || c == b'-'

abbrev pub all_chars : (ℕ → Bool) → List ℕ → Bool
all_chars p [] = true
all_chars p (c ∷ cs) = p c && all_chars p cs

-- An optional number between two bounds.
abbrev pub is_within : ℕ → ℕ → Option ℕ → Bool
is_within low high none = true
is_within low high (some n) = leb low n && leb n high

-- `createQueueSchema`
abbrev pub is_valid_queue : CreateQueue → Bool
is_valid_queue body =
    leb 1 (utf16_length (codes body.name))
    && leb (utf16_length (codes body.name)) 128
    && all_chars is_name_char (codes body.name)
    && is_within 0 100 body.priority
    && is_within 1 1000 body.concurrency_limit

-- `updateQueueSchema`
abbrev pub is_valid_update : UpdateQueue → Bool
is_valid_update body = is_within 0 100 body.priority && is_within 1 1000 body.concurrency_limit

-- `??`, and a field that is only written if it is there.
abbrev pub or_else {ℓ} : {A : Type ℓ} → Option A → A → A
or_else none other = other
or_else (some a) other = a

abbrev pub new_queue : ℕ → ℕ → ℕ → CreateQueue → Queue
new_queue now id project_id body = record {
  id = id;
  project_id = project_id;
  name = body.name;
  priority = or_else body.priority 0;
  concurrency_limit = or_else body.concurrency_limit 10;
  is_paused = false;
  default_retry_policy_id = body.default_retry_policy_id;
  created_at = now;
}

abbrev pub has_name : ℕ → String → Queue → Bool
has_name project_id name q = q.project_id == project_id && str_eq q.name name

-- The foreign key of the default retry policy, of whatever project.
abbrev pub is_policy : Option ℕ → Db → Bool
is_policy none db = true
is_policy (some id) db = exists_where (λ (p : RetryPolicy). p.id == id) db.retry_policies

-- `prisma.queue.create`, with the unique index on the project and the name.
pub insert_queue : Queue → Db → Result Db
insert_queue queue db = do
  guard (not (exists_where (has_name queue.project_id queue.name) db.queues)) unique_violation
  guard (is_policy queue.default_retry_policy_id db) unexpected
  ok (record db { queues = db.queues ++ queue ∷ [] })

-- POST /projects/:projectId/queues
pub create_queue : ℕ → ℕ → ℕ → CreateQueue → Db → Result Db
unfolding insert_queue
create_queue now id project_id body db = do
  guard (is_valid_queue body) (chronos_error validation_error)
  project ← or_fail (find_project project_id db) (chronos_error not_found)
  insert_queue (new_queue now id project_id body) db

abbrev pub updated_queue : UpdateQueue → Queue → Queue
updated_queue body q = record q {
  priority = or_else body.priority q.priority;
  concurrency_limit = or_else body.concurrency_limit q.concurrency_limit;
  is_paused = or_else body.is_paused q.is_paused;
}

-- PATCH /queues/:id
pub update_queue : ℕ → UpdateQueue → Db → Result Db
update_queue id body db = do
  guard (is_valid_update body) (chronos_error validation_error)
  queue ← or_fail (find_queue id db) (chronos_error not_found)
  ok (record db { queues = update_where (λ q. q.id == id) (updated_queue body) db.queues })
