-- ===== src/Jobs/Publication.antt =====
-- api/src/routes/jobs.ts: how the handlers that change jobs end. They write rows, and then await
-- `redis.publish`; where that throws, the request fails, and the rows stay.
use chronos_job_scheduler.Prelude.{Bool}
use chronos_job_scheduler.Schema.{Db, Event, publish}

-- The database once the rows are written, and whether the handler went on to its answer.
pub record Written : Type 0 where
  pub db : Db
  pub is_answered : Bool

-- `await redis.publish(…)`
abbrev pub announce : Bool → Event → Db → Written
announce up event db = record { db = publish up event db; is_answered = up }
