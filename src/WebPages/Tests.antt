-- ===== src/WebPages/Tests.antt =====
-- web/app: the theorems at small examples.
use chronos_job_scheduler.Prelude.{ℕ, ◌≡◌, refl, false, true, none, some, [], ◌∷◌, ◌==◌}
use chronos_job_scheduler.Schema.{Db}
use chronos_job_scheduler.Errors.{ok}
use chronos_job_scheduler.Rbac.{find_queue}
use chronos_job_scheduler.Samples.{empty_db, queue}
use chronos_job_scheduler.Queues.{update_queue}
use chronos_job_scheduler.WebClient.{Response, Browser}
use chronos_job_scheduler.WebPages.Live.{Happening, HomePage, hear_all}
use chronos_job_scheduler.WebPages.Live.Recent.{hear_all-recent}
use chronos_job_scheduler.WebPages.QueueForms.{toggle_pause}
use chronos_job_scheduler.WebPages.QueueForms.Toggle.{toggle_pause-toggle_pause}

abbrev home : HomePage
home = record { summary = none; events = []; connected = false }

-- Every call is refused.
abbrev denied : Response
denied = record { status = 401; access_token = none; user = none }

abbrev browser : Browser ℕ
browser = record { token = some 3; user = some 1; at_login = true; world = 0; calls = [] }

abbrev db : Db
db = record empty_db { queues = queue ∷ [] }

toggle_pause-toggle_pause_example :
    (db' db'' : Db) × (update_queue 7 (toggle_pause queue) db ≡ ok db')
    × (find_queue 7 db' ≡ some (record queue { is_paused = true }))
    × (update_queue 7 (toggle_pause (record queue { is_paused = true })) db' ≡ ok db'')
    × (find_queue 7 db'' ≡ some queue)
    × ((k : ℕ) → (k == 7) ≡ false → find_queue k db'' ≡ find_queue k db)
toggle_pause-toggle_pause_example = toggle_pause-toggle_pause queue db refl

newest_first :
    (hear_all (Happening.connected ∷ Happening.worker_beat 1 2 ∷ []) home).events
    ≡ Happening.worker_beat 1 2 ∷ Happening.connected ∷ []
newest_first = hear_all-recent _ home refl
