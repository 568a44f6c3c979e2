-- ===== src/WebPages/QueueForms/Toggle.antt =====
-- web/app/queues/page.tsx over PATCH /queues/:id of api/src/routes/queues.ts: the button that pauses a queue.
use chronos_job_scheduler.Prelude.{ℕ, ◌≡◌, refl, ◌∙◌, not, Bool, true, false, some, ◌==◌}
use chronos_job_scheduler.Schema.{Db, Queue}
use chronos_job_scheduler.Errors.{ok}
use chronos_job_scheduler.Rbac.{find_queue}
use chronos_job_scheduler.Queues.{update_queue}
use chronos_job_scheduler.Queues.Kept.{update_queue-find_queue}
use chronos_job_scheduler.WebPages.QueueForms.{toggle_pause}

not-not : (b : Bool) → not (not b) ≡ b
not-not true = refl
not-not false = refl

-- What the button sends for a queue that is as it is shown is taken by the handler and turns its pause
-- over; sent again for the queue as it then is, it makes the queue what it was. Other queues are found as
-- before all the time.
pub toggle_pause-toggle_pause :
    (q : Queue) (db : Db)
    → find_queue q.id db ≡ some q
    → (db' db'' : Db) × (update_queue q.id (toggle_pause q) db ≡ ok db')
      × (find_queue q.id db' ≡ some (record q { is_paused = not q.is_paused }))
      × (update_queue q.id (toggle_pause (record q { is_paused = not q.is_paused })) db' ≡ ok db'')
      × (find_queue q.id db'' ≡ some q)
      × ((k : ℕ) → (k == q.id) ≡ false → find_queue k db'' ≡ find_queue k db)
toggle_pause-toggle_pause q db found =
    let paused : Queue = record q { is_paused = not q.is_paused } in
    let (db', done, turned, others) =
      update_queue-find_queue q.id (toggle_pause q) q db refl found in
    let (db'', again, back, others') =
      update_queue-find_queue q.id (toggle_pause paused) paused db' refl turned in
    (
      db',
      db'',
      done,
      turned,
      again,
      back ∙ rw (not-not q.is_paused) refl,
      λ k other. others' k other ∙ others k other,
    )
