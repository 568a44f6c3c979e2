-- ===== src/Queues/Kept.antt =====
-- api/src/routes/queues.ts: making and changing a queue leaves the jobs alone.
use mathlib.Core.Option
use chronos_job_scheduler.Prelude.{
  ℕ, ◌≡◌, refl, ◌∙◌, Bool-cases, Option-cases, some, true, false, not, arith, exists_where,
  find_unique, update_where, find_unique-update_key, ==_self, ◌==◌, if◌then◌else◌,
}
use chronos_job_scheduler.Schema.{Db, Queue}
use chronos_job_scheduler.Errors.{ok}
use chronos_job_scheduler.Rbac.{find_project, find_queue}
use chronos_job_scheduler.Queues.{
  CreateQueue, UpdateQueue, is_valid_queue, is_valid_update, has_name, is_policy, insert_queue,
  create_queue, updated_queue, update_queue,
}

pub create_queue-jobs :
    (now id project_id : ℕ) (body : CreateQueue) (db : Db) {db' : Db}
    → create_queue now id project_id body db ≡ ok db'
    → db'.jobs ≡ db.jobs
unfolding create_queue insert_queue
create_queue-jobs now id project_id body db {db'} h = ground (
  arith,
  Bool-cases (is_valid_queue body),
  Option-cases (find_project project_id db),
  Bool-cases (not (exists_where (has_name project_id body.name) db.queues)),
  Bool-cases (is_policy body.default_retry_policy_id db),
)

pub update_queue-jobs :
    (id : ℕ) (body : UpdateQueue) (db : Db) {db' : Db}
    → update_queue id body db ≡ ok db'
    → db'.jobs ≡ db.jobs
unfolding update_queue
update_queue-jobs id body db {db'} h =
    ground (arith, Bool-cases (is_valid_update body), Option-cases (find_queue id db))

-- A valid change of a queue that exists is made, to this queue alone.
pub update_queue-find_queue :
    (id : ℕ) (body : UpdateQueue) (q : Queue) (db : Db)
    → is_valid_update body ≡ true
    → find_queue id db ≡ some q
    → (db' : Db) × (update_queue id body db ≡ ok db')
      × (find_queue id db' ≡ some (updated_queue body q))
      × ((k : ℕ) → (k == id) ≡ false → find_queue k db' ≡ find_queue k db)
unfolding update_queue
update_queue-find_queue id body q db valid found =
    let rows : (k : ℕ)
        → find_unique (λ (q : Queue). q.id) k
            (update_where (λ q. q.id == id) (updated_queue body) db.queues)
          ≡ (if k == id
              then Option.map (updated_queue body) (find_queue k db)
              else find_queue k db) =
      λ k.
        find_unique-update_key (λ (q : Queue). q.id) k (λ i. i == id) (updated_queue body) db.queues
          (λ q. refl) in
    (
      record db { queues = update_where (λ q. q.id == id) (updated_queue body) db.queues },
      rw (valid, found) refl,
      rows id ∙ rw (==_self id, found) refl,
      λ k other. rows k ∙ rw other refl,
    )
