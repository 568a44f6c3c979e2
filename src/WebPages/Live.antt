-- ===== src/WebPages/Live.antt =====
-- web/app/page.tsx and web/app/workers/page.tsx: what the events of the socket make of the pages. A text of an event is
-- what it is made of.

pub mod Recent
use chronos_job_scheduler.Prelude.{
  ℕ, suc, ◌+◌, ◌-◌, ◌*◌, ◌/◌, Bool, true, false, Option, none, some, List, [], ◌∷◌, ◌++◌, map, take,
  ◌==◌, ltb, if◌then◌else◌, count_where,
}
use chronos_job_scheduler.Schema.{Worker, WorkerStatus, Transition, is_active_worker}
use chronos_job_scheduler.Dashboard.{Summary}
use chronos_job_scheduler.Workers.{WorkerSummary}

pub data Happening : Type 0 where
  connected disconnected : Happening
  job_changed : ℕ → Transition → ℕ → Happening
  worker_beat : ℕ → ℕ → Happening

pub record HomePage : Type 0 where
  pub summary : Option Summary
  pub events : List Happening
  pub connected : Bool

-- `addEvent`; the list is cut to its first 30.
abbrev pub add_event : Happening → HomePage → HomePage
add_event e p = record p { events = take 30 (e ∷ p.events) }

abbrev pub summary_loaded : Option Summary → HomePage → HomePage
summary_loaded none p = p
summary_loaded (some s) p = record p { summary = some s }

-- The handlers of the socket's events; `loadSummary` ends later.
pub hear : Happening → HomePage → HomePage
hear Happening.connected p = add_event Happening.connected (record p { connected = true })
hear Happening.disconnected p = add_event Happening.disconnected (record p { connected = false })
hear e p = add_event e p

pub hear_all : List Happening → HomePage → HomePage
unfolding hear
hear_all [] p = p
hear_all (e ∷ es) p = hear_all es (hear e p)

-- A heartbeat: worker, active jobs, load if there is one, and the time of its arrival.
pub record Beat : Type 0 where
  pub worker_id : ℕ
  pub active_job_count : ℕ
  pub cpu_load : Option ℕ
  pub at : ℕ

abbrev pub or_before : Option ℕ → Option ℕ → Option ℕ
or_before none before = before
or_before (some load) before = some load

abbrev pub beaten : Beat → WorkerSummary → WorkerSummary
beaten beat w = record w {
  worker = record w.worker { last_heartbeat_at = beat.at };
  active_job_count = beat.active_job_count;
  cpu_load = or_before beat.cpu_load w.cpu_load;
}

-- `onHeartbeat`
pub on_heartbeat : Beat → List WorkerSummary → List WorkerSummary
on_heartbeat beat = map (λ w. if w.worker.id == beat.worker_id then beaten beat w else w)

abbrev pub count_active : List WorkerSummary → ℕ
count_active = count_where (λ w. is_active_worker w.worker.status)

-- A row is marked if its last heartbeat is more than a minute old.
abbrev pub is_marked : ℕ → WorkerSummary → Bool
is_marked now w = ltb (60 * 1000) (now - w.worker.last_heartbeat_at)

pub data Ago : Type 0 where
  seconds minutes hours : ℕ → Ago

-- `timeSince`
pub time_since : ℕ → ℕ → Ago
time_since now at =
    let s = (now - at) / 1000 in
    if ltb s 60 then seconds s else if ltb s 3600 then minutes (s / 60) else hours (s / 3600)
