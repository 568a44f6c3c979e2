-- ===== src/Jobs/Kept.antt =====
-- api/src/routes/jobs.ts: what each of the handlers that change jobs leaves as it was.
use chronos_job_scheduler.Prelude.{
  Bool, ℕ, ◌≡◌, refl, sym, ap, ◌∙◌, Bool-cases, Option-cases, some, not, ◌&&◌, false, ◌==◌, arith,
  find_unique, find_first-kept, List, [], ◌++◌, inl, inr, append-nil, map, str_eq,
}
use chronos_job_scheduler.Schema.{Db, Job, Queue}
use chronos_job_scheduler.Schema.JsonValue.{Json}
use chronos_job_scheduler.Errors.{ok}
use chronos_job_scheduler.Rbac.{find_job}
use chronos_job_scheduler.Jobs.{
  has_key, key_taken, create_scheduled, create_by_kind, create_job, create_batch, retry, cancel,
  Written,
}
use chronos_job_scheduler.Jobs.Body.{
  CreateJob, BatchJob, is_valid_create, is_valid_batch, is_valid_cron,
}
use chronos_job_scheduler.Jobs.Submission.{create_one_shot-ok}
use chronos_job_scheduler.Jobs.Transitions.{retry-cases, cancel-cases}
use chronos_job_scheduler.Jobs.Batches.{create_batch-ok}

-- The new jobs stand behind the others.
abbrev pub Appends : Db → Db → Type 0
Appends db db' = (new : List Job) × (db'.jobs ≡ db.jobs ++ new)

pub Appends-find_job :
    (k : ℕ) (db db' : Db) {j : Job}
    → Appends db db'
    → find_job k db ≡ some j
    → find_job k db' ≡ some j
Appends-find_job k db db' (new, rows) found =
    ap (find_unique (λ (j : Job). j.id) k) rows ∙ find_first-kept (λ j. j.id == k) db.jobs new found

create_by_kind-Appends :
    (up : Bool) (template : CreateJob → Json) (now id : ℕ) (queue : Queue) (body : CreateJob)
    (db : Db) {w : Written}
    → create_by_kind up template now id queue body db ≡ ok w
    → Appends db w.db
unfolding create_by_kind create_scheduled
create_by_kind-Appends up template now id queue body db {w} h =
    elim (Option-cases body.cron_expression) [
      | inl once ↦
          (_, (create_one_shot-ok up now id queue body db (rw (create_by_kind, once) at h)).0)
      | inr (cron, given) ↦ elim (Bool-cases (str_eq cron "")) [
        | inl blank ↦ (
          _,
          (create_one_shot-ok up now id queue body db (rw (create_by_kind, given, blank) at h)).0,
        )
        | inr repeated ↦
            let scheduled : create_scheduled up template now id queue body cron db ≡ ok w =
              rw (create_by_kind, given, repeated) at h in
            let kept : w.db.jobs ≡ db.jobs = ground (arith, Bool-cases (is_valid_cron cron)) in
            ([], kept ∙ sym (append-nil db.jobs))
      ]
    ]

pub create_job-Appends :
    (up : Bool) (template : CreateJob → Json) (now id queue_id : ℕ) (body : CreateJob) (db : Db)
    {w : Written}
    → create_job up template now id queue_id body db ≡ ok w
    → Appends db w.db
unfolding create_job
create_job-Appends up template now id queue_id body db {w} h =
    let valid = Bool-cases (is_valid_create body) in
    let free =
      Bool-cases
        (not (has_key body.idempotency_key && key_taken queue_id body.idempotency_key db.jobs)) in
    elim (Option-cases (find_unique (λ (q : Queue). q.id) queue_id db.queues)) [
      | inl missing ↦ ground (arith, valid)
      | inr (queue, found) ↦
          let placed : create_by_kind up template now id queue body db ≡ ok w =
            ground (arith, valid, free) in
          create_by_kind-Appends up template now id queue body db placed
    ]

pub create_batch-Appends :
    (up : Bool) (now batch_id queue_id : ℕ) (items : List (ℕ × BatchJob)) (db : Db) {w : Written}
    → create_batch up now batch_id queue_id items db ≡ ok w
    → Appends db w.db
unfolding create_batch
create_batch-Appends up now batch_id queue_id items db {w} h =
    elim (Option-cases (find_unique (λ (q : Queue). q.id) queue_id db.queues)) [
      | inl missing ↦
          ground (arith, Bool-cases (is_valid_batch (map (λ (item : ℕ × BatchJob). item.1) items)))
      | inr (queue, found) ↦ (_, create_batch-ok up now batch_id queue_id items db found h)
    ]

pub retry-find_job :
    (up : Bool) (now id k : ℕ) (db : Db) {w : Written}
    → retry up now id db ≡ ok w
    → (k == id) ≡ false
    → find_job k w.db ≡ find_job k db
unfolding retry
retry-find_job up now id k db {w} h other =
    elim (Option-cases (find_unique (λ (j : Job). j.id) id db.jobs)) [
      | inl missing ↦ ground arith
      | inr (j, found) ↦ elim (retry-cases up now id db found) [
        | inr (unready, refused) ↦ cc
        | inl (ready, (v, done, answered, rows, claimable, letters)) ↦
            let same : v ≡ w = cc in
            ap (λ (v : Written). find_job k v.db) (sym same) ∙ rows k ∙ rw other refl
      ]
    ]

pub cancel-find_job :
    (up : Bool) (now id k : ℕ) (db : Db) {w : Written}
    → cancel up now id db ≡ ok w
    → (k == id) ≡ false
    → find_job k w.db ≡ find_job k db
unfolding cancel
cancel-find_job up now id k db {w} h other =
    elim (Option-cases (find_unique (λ (j : Job). j.id) id db.jobs)) [
      | inl missing ↦ ground arith
      | inr (j, found) ↦ elim (cancel-cases up now id db found) [
        | inr (unready, refused) ↦ cc
        | inl (ready, (v, done, answered, rows, never)) ↦
            let same : v ≡ w = cc in
            ap (λ (v : Written). find_job k v.db) (sym same) ∙ rows k ∙ rw other refl
      ]
    ]
