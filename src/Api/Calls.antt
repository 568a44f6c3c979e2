-- ===== src/Api/Calls.antt =====
-- The routes that api/src/index.ts registers, with what a request to each brings, what it answers, and its
-- preHandlers as api/src/routes declares them. A call has passed the body and query schemas of Fastify.
use chronos_job_scheduler.Prelude.{ℕ, String, Bool, Option, none, some, List, [], ◌∷◌}
use chronos_job_scheduler.Schema.{
  OrgMemberRole, admin, member, JobLog, JobExecution, WorkerHeartbeat,
}
use chronos_job_scheduler.RateLimit.{RateLimitConfig, job_submission_limit, auth_limit}
use chronos_job_scheduler.Rbac.{Params}
use chronos_job_scheduler.Listing.{Listing}
use chronos_job_scheduler.Auth.{Fresh, RegisterBody, LoginBody, Session}
use chronos_job_scheduler.Projects.{ProjectSummary, ProjectDetail}
use chronos_job_scheduler.Queues.{CreateQueue, UpdateQueue}
use chronos_job_scheduler.Queues.Stats.{QueueStats, QueueSummary}
use chronos_job_scheduler.Jobs.Body.{CreateJob, BatchJob}
use chronos_job_scheduler.Jobs.Reads.{JobQuery, JobSummary, JobDetail, ExecutionDetail}
use chronos_job_scheduler.Workers.{WorkerSummary, WorkerDetail}
use chronos_job_scheduler.Dashboard.{Summary}

-- `page` and `limit` of a query
abbrev pub Page : Type 0
Page = Option (List ℕ) × Option (List ℕ)

-- New identifiers come first, then the parameters of the path, then the body or the query. Before them
-- stands whether Redis takes the commands of the handler. `summary` takes the last midnight.
pub data Call : Type 0 where
  register : Bool → Fresh → RegisterBody → Call
  login : Bool → ℕ → LoginBody → Call
  refresh : Bool → Bool → Bool → ℕ → Call
  logout : Bool → Call
  create_project : ℕ → ℕ → ℕ → String → Call
  list_projects : Page → Call
  get_project : ℕ → Call
  create_queue : ℕ → ℕ → CreateQueue → Call
  list_queues : ℕ → Page → Call
  update_queue : ℕ → UpdateQueue → Call
  queue_stats : ℕ → Call
  create_job : ℕ → ℕ → CreateJob → Call
  create_batch : ℕ → ℕ → List (ℕ × BatchJob) → Call
  list_jobs : JobQuery → Call
  get_job : ℕ → Call
  list_executions : ℕ → Page → Call
  list_logs : ℕ → Page → Call
  retry : ℕ → Call
  cancel : ℕ → Call
  list_workers : Option String → Page → Call
  get_worker : ℕ → Call
  list_heartbeats : ℕ → Call
  summary : ℕ → Call
  health : Call

-- What is sent; `written` stands for the row that a handler has just written.
pub data Reply (Token : Type 0) : Type 0 where
  session : Session Token → Reply Token
  written logged_out healthy : Reply Token
  projects : Listing ProjectSummary → Reply Token
  project : ProjectDetail → Reply Token
  queues : Listing QueueSummary → Reply Token
  stats : QueueStats → Reply Token
  jobs : Listing JobSummary → Reply Token
  job : JobDetail → Reply Token
  executions : Listing ExecutionDetail → Reply Token
  logs : Listing (JobLog × Option JobExecution) → Reply Token
  workers : Listing WorkerSummary → Reply Token
  worker : WorkerDetail → Reply Token
  heartbeats : List WorkerHeartbeat → Reply Token
  totals : Summary → Reply Token

-- The labels of `rateLimit`.
pub data Endpoint : Type 0 where
  auth job_submission : Endpoint

abbrev pub config_of : Endpoint → RateLimitConfig
config_of Endpoint.auth = auth_limit
config_of Endpoint.job_submission = job_submission_limit

-- `requireAuth`, `requireOrgMember(role)` and `rateLimit(label, …)`
pub data PreHandler : Type 0 where
  authenticate : PreHandler
  org_member : OrgMemberRole → PreHandler
  limited : Endpoint → PreHandler

abbrev submission : List PreHandler
submission = authenticate ∷ org_member member ∷ limited Endpoint.job_submission ∷ []

-- The `preHandler` of each route.
abbrev pub pre_handlers : Call → List PreHandler
pre_handlers (Call.register up fresh body) = limited Endpoint.auth ∷ []
pre_handlers (Call.login up jti body) = limited Endpoint.auth ∷ []
pre_handlers (Call.refresh reads deletes stores jti) = []
pre_handlers (Call.logout up) = []
pre_handlers (Call.create_queue id project_id body) = authenticate ∷ org_member admin ∷ []
pre_handlers (Call.list_queues project_id page) = authenticate ∷ org_member member ∷ []
pre_handlers (Call.update_queue id body) = authenticate ∷ org_member admin ∷ []
pre_handlers (Call.queue_stats id) = authenticate ∷ org_member member ∷ []
pre_handlers (Call.create_job id queue_id body) = submission
pre_handlers (Call.create_batch id queue_id items) = submission
pre_handlers (Call.retry id) = authenticate ∷ org_member member ∷ []
pre_handlers (Call.cancel id) = authenticate ∷ org_member member ∷ []
pre_handlers Call.health = []
pre_handlers _ = authenticate ∷ []

abbrev no_params : Params
no_params = record { org_id = none; project_id = none; queue_id = none; id = none }

-- `request.params`: the names that the paths give to what they carry.
abbrev pub params_of : Call → Params
params_of (Call.create_queue id project_id body) = record no_params { project_id = some project_id }
params_of (Call.list_queues project_id page) = record no_params { project_id = some project_id }
params_of (Call.create_job id queue_id body) = record no_params { queue_id = some queue_id }
params_of (Call.create_batch id queue_id items) = record no_params { queue_id = some queue_id }
params_of (Call.get_project id) = record no_params { id = some id }
params_of (Call.update_queue id body) = record no_params { id = some id }
params_of (Call.queue_stats id) = record no_params { id = some id }
params_of (Call.get_job id) = record no_params { id = some id }
params_of (Call.list_executions id page) = record no_params { id = some id }
params_of (Call.list_logs id page) = record no_params { id = some id }
params_of (Call.retry id) = record no_params { id = some id }
params_of (Call.cancel id) = record no_params { id = some id }
params_of (Call.get_worker id) = record no_params { id = some id }
params_of (Call.list_heartbeats id) = record no_params { id = some id }
params_of _ = no_params
