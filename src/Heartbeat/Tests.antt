-- ===== src/Heartbeat/Tests.antt =====
-- worker/src/heartbeat.ts: the writer's theorems at one worker.
use chronos_job_scheduler.Prelude.{◌≡◌, ◌≢◌, refl, true, some, List, [], ◌∷◌, arith}
use chronos_job_scheduler.Schema.{Db, WorkerHeartbeat}
use chronos_job_scheduler.Samples.{empty_db, worker}
use chronos_job_scheduler.Heartbeat.{update_fails, publish_fails, write, sample}
use chronos_job_scheduler.Heartbeat.Liveness.{reap-write}
use chronos_job_scheduler.Reaper.{reap}
use chronos_job_scheduler.Reaper.Survivors.{find_worker}

abbrev beats : List WorkerHeartbeat
beats = sample 1 1 100 0 5 ∷ sample 2 4 100 0 5 ∷ sample 3 1 5100 1 5 ∷ []

abbrev db : Db
db = record empty_db { workers = worker 1 0 ∷ worker 2 0 ∷ [] }

not_update : publish_fails ≢ update_fails
not_update e = cc

reap-write_example :
    find_worker 1 (reap (λ id. "died") true 30 60000 (write publish_fails 9 1 40000 0 5 db)).workers
    ≡ some (worker 1 40000)
reap-write_example =
    reap-write publish_fails (λ id. "died") true 9 1 40000 0 5 30 60000 db not_update
      (refl, (refl, tt)) refl (omega arith)
