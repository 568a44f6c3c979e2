-- ===== src/Queues/Settings.antt =====
-- api/src/routes/queues.ts: what holds of the queues whatever requests are made.
use chronos_job_scheduler.Prelude.{
  both, both, both, codes, utf16_length, if_holds, ℕ, ◌+◌, ◌≤◌, ◌≡◌, refl, String, str_eq, eq_iff,
  true, false, ◌&&◌, Bool-cases, Option, none, some, Option-cases, List, [], ◌∷◌, ◌++◌, ◌==◌, ==→eq,
  leb, if◌then◌else◌, arith, All, All-append, count_where, exists_where, update_where, inl, inr,
}
use chronos_job_scheduler.Schema.{Db, Queue}
use chronos_job_scheduler.Errors.{Result, ok, err}
use chronos_job_scheduler.Rbac.{find_project, find_queue}
use chronos_job_scheduler.Queues.{
  is_name_char, all_chars, CreateQueue, UpdateQueue, is_within, is_valid_queue, is_valid_update,
  or_else, new_queue, has_name, is_policy, insert_queue, create_queue, updated_queue, update_queue,
}

pub data Change : Type 0 where
  creates : ℕ → ℕ → ℕ → CreateQueue → Change
  updates : ℕ → UpdateQueue → Change

abbrev pub state_after : Db → Result Db → Db
state_after db (err e) = db
state_after db (ok db') = db'

pub change : Change → Db → Db
change (creates now id project_id body) db = state_after db (create_queue now id project_id body db)
change (updates id body) db = state_after db (update_queue id body db)

pub changes : List Change → Db → Db
unfolding change
changes [] db = db
changes (c ∷ cs) db = changes cs (change c db)

abbrev pub IsBounded : Queue → Type 0
IsBounded q = (q.priority ≤ 100) × (1 ≤ q.concurrency_limit) × (q.concurrency_limit ≤ 1000)

-- Every queue's priority is at most 100 and its limit from 1 to 1000, and no two queues of a project share
-- a name.
unfoldable pub IsConfigured : Db → Type 0
IsConfigured db =
    All IsBounded db.queues
    × ((project_id : ℕ) (name : String) → count_where (has_name project_id name) db.queues ≤ 1)

within_or_else :
    (low high fallback : ℕ) (given : Option ℕ)
    → is_within low high given ≡ true
    → low ≤ fallback
    → fallback ≤ high
    → (low ≤ or_else given fallback) × (or_else given fallback ≤ high)
within_or_else low high fallback none h a b = (a, b)
within_or_else low high fallback (some n) h a b =
    (ground (arith, h, Bool-cases (leb low n)), ground (arith, h, Bool-cases (leb low n)))

limits :
    (body : CreateQueue)
    → is_valid_queue body ≡ true
    → (is_within 0 100 body.priority ≡ true) × (is_within 1 1000 body.concurrency_limit ≡ true)
limits body valid =
    let n = utf16_length (codes body.name) in
    let named = leb 1 n && leb n 128 && all_chars is_name_char (codes body.name) in
    let (rest, limit) =
      both (named && is_within 0 100 body.priority) (is_within 1 1000 body.concurrency_limit)
        valid in
    ((both named (is_within 0 100 body.priority) rest).1, limit)

new_queue-IsBounded :
    (now id project_id : ℕ) (body : CreateQueue)
    → is_valid_queue body ≡ true
    → IsBounded (new_queue now id project_id body)
new_queue-IsBounded now id project_id body valid =
    let p =
      within_or_else 0 100 0 body.priority (limits body valid).0 (omega arith) (omega arith) in
    let l =
      within_or_else 1 1000 10 body.concurrency_limit (limits body valid).1 (omega arith)
        (omega arith) in
    (p.1, l.0, l.1)

update_where-IsBounded :
    (id : ℕ) (body : UpdateQueue) (qs : List Queue)
    → is_valid_update body ≡ true
    → All IsBounded qs
    → All IsBounded (update_where (λ q. q.id == id) (updated_queue body) qs)
update_where-IsBounded id body [] valid h = tt
update_where-IsBounded id body (q ∷ qs) valid h =
    let p = within_or_else 0 100 q.priority body.priority (both _ _ valid).0 (omega arith) h.0.0 in
    let l =
      within_or_else 1 1000 q.concurrency_limit body.concurrency_limit (both _ _ valid).1 h.0.1
        h.0.2 in
    (
      if_holds IsBounded (q.id == id) (updated_queue body q) q (p.1, l.0, l.1) h.0,
      update_where-IsBounded id body qs valid h.1,
    )

-- An update does not touch what names are compared by.
count_names-update :
    (id project_id : ℕ) (name : String) (body : UpdateQueue) (qs : List Queue)
    → count_where
        (has_name project_id name)
        (update_where (λ q. q.id == id) (updated_queue body) qs)
      ≡ count_where (has_name project_id name) qs
count_names-update id project_id name body [] = refl
count_names-update id project_id name body (q ∷ qs) =
    let rest = count_names-update id project_id name body qs in
    elim (Bool-cases (q.id == id)) [
      | inl e ↦ rw e (omega (arith, rest))
      | inr e ↦ rw e (omega (arith, rest))
    ]

count_names-append :
    (project_id : ℕ) (name : String) (q : Queue) (qs : List Queue)
    → count_where (has_name project_id name) (qs ++ q ∷ [])
      ≡ count_where (has_name project_id name) qs + (if has_name project_id name q then 1 else 0)
count_names-append project_id name q [] = omega arith
count_names-append project_id name q (r ∷ qs) =
    omega (arith, count_names-append project_id name q qs)

count_names-absent :
    (project_id : ℕ) (name : String) (qs : List Queue)
    → exists_where (has_name project_id name) qs ≡ false
    → count_where (has_name project_id name) qs ≡ 0
count_names-absent project_id name [] h = refl
count_names-absent project_id name (q ∷ qs) h = elim (Bool-cases (has_name project_id name q)) [
  | inl e ↦ let met : true ≡ false = rw e at h in cc
  | inr e ↦ let rest = rw e at h in rw e (omega (arith, count_names-absent project_id name qs rest))
]

count_names-insert :
    (q : Queue) (qs : List Queue)
    → exists_where (has_name q.project_id q.name) qs ≡ false
    → ((project_id : ℕ) (name : String) → count_where (has_name project_id name) qs ≤ 1)
    → (project_id : ℕ) (name : String) → count_where (has_name project_id name) (qs ++ q ∷ []) ≤ 1
count_names-insert q qs fresh few project_id name =
    rw (count_names-append project_id name q qs) (elim (Bool-cases (has_name project_id name q)) [
      | inl same ↦
          let parts = both (q.project_id == project_id) (str_eq q.name name) same in
          let p : q.project_id ≡ project_id = ==→eq q.project_id project_id parts.0 in
          let n : q.name ≡ name = (eq_iff q.name name).0 parts.1 in
          let zero : count_where (has_name project_id name) qs ≡ 0 =
            rw (p, n) at (count_names-absent q.project_id q.name qs fresh) in
          rw (same, zero) (omega arith)
      | inr other ↦ rw other (omega (arith, few project_id name))
    ])

insert_queue-IsConfigured :
    (q : Queue) (db : Db)
    → IsBounded q
    → IsConfigured db
    → IsConfigured (state_after db (insert_queue q db))
unfolding IsConfigured insert_queue
insert_queue-IsConfigured q db bounded h =
    elim (Bool-cases (exists_where (has_name q.project_id q.name) db.queues)) [
      | inl taken ↦ rw (insert_queue, taken) h
      | inr fresh ↦ elim (Bool-cases (is_policy q.default_retry_policy_id db)) [
        | inr dangling ↦ rw (insert_queue, fresh, dangling) h
        | inl kept ↦
            rw (insert_queue, fresh, kept)
              (
                All-append IsBounded db.queues (q ∷ []) h.0 (bounded, tt),
                count_names-insert q db.queues fresh h.1,
              )
      ]
    ]

create_queue-IsConfigured :
    (now id project_id : ℕ) (body : CreateQueue) (db : Db)
    → IsConfigured db
    → IsConfigured (state_after db (create_queue now id project_id body db))
unfolding create_queue
create_queue-IsConfigured now id project_id body db h = elim (Bool-cases (is_valid_queue body)) [
  | inr malformed ↦ rw (create_queue, malformed) h
  | inl valid ↦ elim (Option-cases (find_project project_id db)) [
    | inl missing ↦ rw (create_queue, valid, missing) h
    | inr (project, found) ↦
        rw (create_queue, valid, found)
          (insert_queue-IsConfigured (new_queue now id project_id body) db
            (new_queue-IsBounded now id project_id body valid) h)
  ]
]

update_queue-IsConfigured :
    (id : ℕ) (body : UpdateQueue) (db : Db)
    → IsConfigured db
    → IsConfigured (state_after db (update_queue id body db))
unfolding IsConfigured update_queue
update_queue-IsConfigured id body db h = elim (Bool-cases (is_valid_update body)) [
  | inr malformed ↦ rw (update_queue, malformed) h
  | inl valid ↦ elim (Option-cases (find_queue id db)) [
    | inl missing ↦ rw (update_queue, valid, missing) h
    | inr (q, found) ↦
        rw (update_queue, valid, found)
          (
            update_where-IsBounded id body db.queues valid h.0,
            λ p name. rw (count_names-update id p name body db.queues) (h.1 p name),
          )
  ]
]

-- Whatever queues are created and updated, in whatever order and by whatever requests: if before every
-- queue's priority is at most 100, its limit is from 1 to 1000, and no two queues of a project share a name,
-- then so it is after.
pub changes-IsConfigured :
    (cs : List Change) (db : Db) → IsConfigured db → IsConfigured (changes cs db)
unfolding changes change
changes-IsConfigured [] db h = h
changes-IsConfigured (creates now id project_id body ∷ cs) db h =
    changes-IsConfigured cs _ (create_queue-IsConfigured now id project_id body db h)
changes-IsConfigured (updates id body ∷ cs) db h =
    changes-IsConfigured cs _ (update_queue-IsConfigured id body db h)
