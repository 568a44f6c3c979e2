-- ===== src/JobStates.antt =====
-- The life of a job as a state machine, which worker/src/claimer.ts, worker/src/executor.ts,
-- worker/src/heartbeat.ts and api/src/routes/jobs.ts carry out between them: the moves, and the operations
-- on the database one at a time.
pub mod Runs
pub mod Reaping
pub mod Accounts
pub mod Refinement
pub mod Histories
pub mod Stranded
mod Tests
use chronos_job_scheduler.Prelude.{
  includes, not, ◌||◌, or_false, All, String, ◌==◌, some, false, ℕ, Bool, true, ◌≡◌, Option, List,
  [], ◌∷◌,
}
use chronos_job_scheduler.Schema.{is_running, same_status, JobExecution, Db, Job, JobStatus}
use chronos_job_scheduler.Errors.{Result, ok, err}
use chronos_job_scheduler.Claimer.{claim_jobs}
use chronos_job_scheduler.Executor.{Handle, Surroundings, execute_job}
use chronos_job_scheduler.Executor.Ledger.{execution_ids}
use chronos_job_scheduler.Executor.Rows.{find_job}
use chronos_job_scheduler.Reaper.{reap}
use chronos_job_scheduler.Jobs.{retry, cancel, Written}

-- Who may change a status: the claimer, the executor, the reaper, and a client by a request.
pub data Actor : Type 0 where
  claimer executor reaper client : Actor

-- What each of them may do to a job's status, and nothing else.
pub data Move : Actor → JobStatus → JobStatus → Type 0 where
  claims : Move Actor.claimer JobStatus.queued JobStatus.claimed
  starts : Move Actor.executor JobStatus.claimed JobStatus.running
  completes : Move Actor.executor JobStatus.running JobStatus.completed
  backs_off : Move Actor.executor JobStatus.running JobStatus.queued
  dies : Move Actor.executor JobStatus.running JobStatus.dead_letter
  requeues : Move Actor.reaper JobStatus.running JobStatus.queued
  revives_failed : Move Actor.client JobStatus.failed JobStatus.queued
  revives_dead : Move Actor.client JobStatus.dead_letter JobStatus.queued
  revives_cancelled : Move Actor.client JobStatus.cancelled JobStatus.queued
  cancels_queued : Move Actor.client JobStatus.queued JobStatus.cancelled
  cancels_scheduled : Move Actor.client JobStatus.scheduled JobStatus.cancelled

-- Some moves of one of them, one after the other.
pub data Moves (actor : Actor) : JobStatus → JobStatus → Type 0 where
  rests : {s : JobStatus} → Moves actor s s
  goes_on : {s t u : JobStatus} → Move actor s t → Moves actor t u → Moves actor s u

pub data Operation : Type 0 where
  claiming : List ℕ → ℕ → ℕ → ℕ → Operation
  executing : Handle → Surroundings → ℕ → ℕ → Operation
  reaping : (ℕ → String) → Bool → ℕ → ℕ → Operation
  retrying : Bool → ℕ → ℕ → Operation
  cancelling : Bool → ℕ → ℕ → Operation

abbrev pub actor_of : Operation → Actor
actor_of (Operation.claiming locked queue_id limit now) = Actor.claimer
actor_of (Operation.executing handle s id worker) = Actor.executor
actor_of (Operation.reaping message up ttl now) = Actor.reaper
actor_of (Operation.retrying up now id) = Actor.client
actor_of (Operation.cancelling up now id) = Actor.client

abbrev pub or_same : Db → Result Written → Db
or_same db (err e) = db
or_same db (ok w) = w.db

-- A claim that commits, a run of a job, a reaper cycle, and the two requests.
pub operate : Operation → Db → Db
operate (Operation.claiming locked queue_id limit now) db =
    (claim_jobs false locked queue_id limit now db).1
operate (Operation.executing handle s id worker) db = (execute_job handle s id worker db).1
operate (Operation.reaping message up ttl now) db = reap message up ttl now db
operate (Operation.retrying up now id) db = or_same db (retry up now id db)
operate (Operation.cancelling up now id) db = or_same db (cancel up now id db)

-- An execution that is open belongs to a job that is `running`.
abbrev pub is_accounted : List Job → JobExecution → Bool
is_accounted jobs e =
    not (is_running e.status)
    || or_false (λ (j : Job). same_status JobStatus.running j.status) (find_job e.job_id jobs)

abbrev pub Accounted : Db → Type 0
Accounted db = All (λ e. is_accounted db.jobs e ≡ true) db.executions

-- The worker runs only a job that it has claimed, and the execution has a new identifier.
unfoldable pub IsReady : Operation → Db → Type 0
IsReady (Operation.executing handle s id worker) db =
    ((j : Job) × (find_job id db.jobs ≡ some j) × (j.status ≡ JobStatus.claimed))
    × (includes s.execution_id (execution_ids db.executions) ≡ false)
IsReady operation db = Unit

-- Some operations, one after the other.
pub operate_all : List Operation → Db → Db
operate_all [] db = db
operate_all (o ∷ os) db = operate_all os (operate o db)

-- Each is ready when its turn comes.
unfoldable pub AreReady : List Operation → Db → Type 0
unfolding IsReady
AreReady [] db = Unit
AreReady (o ∷ os) db = IsReady o db × AreReady os (operate o db)

-- A job's statuses on the way: between two of them, moves of the operation's actor.
abbrev pub Passes : List Operation → JobStatus → JobStatus → Type 0
Passes [] s u = s ≡ u
Passes (o ∷ os) s u = (t : JobStatus) × Moves (actor_of o) s t × Passes os t u

-- The job's row is there, and its status one that the actor's moves lead to.
abbrev pub IsMoved : Actor → JobStatus → ℕ → Db → Type 0
IsMoved actor status k db = (i : Job) × (find_job k db.jobs ≡ some i) × Moves actor status i.status

pub single : {actor : Actor} {s t : JobStatus} → Move actor s t → Moves actor s t
single move = goes_on move rests
