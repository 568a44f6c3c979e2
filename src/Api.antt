-- ===== src/Api.antt =====
-- api/src/index.ts and the `preHandler` lists of api/src/routes: how a request passes the preHandlers of its
-- route and reaches the handler. Fastify runs the preHandlers in order, and what one of them throws ends the
-- request. Times are milliseconds, for Auth seconds.
pub mod Calls
pub mod Access
pub mod Entitled
pub mod Isolation
pub mod Buckets
pub mod Meters
pub mod Limits
mod Tests
use chronos_job_scheduler.Prelude.{
  ℕ, ◌/◌, Bool, true, false, ◌&&◌, Option, none, some, List, [], ◌∷◌, ◌==◌, if◌then◌else◌,
}
use chronos_job_scheduler.Schema.{Db, Job}
use chronos_job_scheduler.Schema.JsonValue.{Json}
use chronos_job_scheduler.Errors.{Result, ok, err, ◌>>=◌, chronos_error, unexpected, rate_limited}
use chronos_job_scheduler.RateLimit.{RateLimitConfig, Bucket, Decision, check, held}
use chronos_job_scheduler.Rbac.{require_org_member}
use chronos_job_scheduler.Auth.{
  AuthState, Session, refresh_cookie, register, login, refresh, logout, require_auth,
}
use chronos_job_scheduler.Auth.Interface.{Crypto, Request, JwtPayload, cookie}
use chronos_job_scheduler.Projects.{create_project, list_projects, get_project}
use chronos_job_scheduler.Queues.{create_queue, update_queue}
use chronos_job_scheduler.Queues.Stats.{list_queues, queue_stats}
use chronos_job_scheduler.Jobs.{Written, create_job, create_batch, retry, cancel}
use chronos_job_scheduler.Jobs.Body.{CreateJob}
use chronos_job_scheduler.Jobs.Reads.{list_jobs, get_job, list_executions, list_logs}
use chronos_job_scheduler.Workers.{list_workers, get_worker, list_heartbeats}
use chronos_job_scheduler.Dashboard.{summary}
use Calls.{
  Call, Reply, Endpoint, config_of, PreHandler, authenticate, org_member, limited, pre_handlers,
  params_of,
}

-- `request.user?.sub ?? request.ip`
pub data Identity : Type 0 where
  by_user by_address : ℕ → Identity

abbrev pub same_identity : Identity → Identity → Bool
same_identity (Identity.by_user a) (Identity.by_user b) = a == b
same_identity (Identity.by_address a) (Identity.by_address b) = a == b
same_identity _ _ = false

abbrev pub same_endpoint : Endpoint → Endpoint → Bool
same_endpoint Endpoint.auth Endpoint.auth = true
same_endpoint Endpoint.job_submission Endpoint.job_submission = true
same_endpoint _ _ = false

-- The buckets stand under the keys `ratelimit:…` of Redis.
pub record ApiState : Type 0 where
  pub auth : AuthState
  pub buckets : Identity → Endpoint → Option Bucket

-- The time, the sender and the tokens of a request; whether Redis runs the script of the limiter and takes
-- the event that the handler publishes; and how PostgreSQL ranks jobs that the order of a listing leaves open.
pub record Context (Token : Type 0) : Type 0 where
  pub now : ℕ
  pub ip : ℕ
  pub sent : Request Token
  pub limiter_up : Bool
  pub publishes : Bool
  pub ties : Job → ℕ

abbrev pub identity : Option ℕ → ℕ → Identity
identity none ip = Identity.by_address ip
identity (some id) ip = Identity.by_user id

-- What the script finds under a key: a bucket that was never written or has expired is gone.
abbrev pub found_bucket : RateLimitConfig → ℕ → Option Bucket → Option Bucket
found_bucket c now none = none
found_bucket c now (some b) = held c now b

abbrev pub store_bucket : Identity → Endpoint → Bucket → ApiState → ApiState
store_bucket who at b s = record s {
  buckets = λ i e. if same_identity who i && same_endpoint at e then some b else s.buckets i e;
}

-- The preHandler that `rateLimit` returns.
pub limit_rate : ℕ → Bool → Identity → Endpoint → ApiState → Result (Unit {0}) × ApiState
limit_rate now up who at s =
    let c = config_of at in
    let (d, b) = check c now (found_bucket c now (s.buckets who at)) in
    if up
    then (
      (if d.allowed then ok tt else err (chronos_error (rate_limited d.retry_after))),
      store_bucket who at b s,
    )
    else (err unexpected, s)

abbrev pub keep_user : Option ℕ → Result (Unit {0}) → Result (Option ℕ)
keep_user user (err e) = err e
keep_user user (ok done) = ok user

-- The result of a handler that may write: a thrown one has written nothing.
abbrev pub commit : {Token : Type 0} → Result Db → ApiState → Result (Reply Token) × ApiState
commit (err e) s = (err e, s)
commit (ok db) s = (ok Reply.written, record s { auth = record s.auth { db = db } })

-- The same where the rows are followed by an event: if that is not published, the request fails, and the rows stay.
abbrev pub commit_announced :
    {Token : Type 0} → Result Written → ApiState → Result (Reply Token) × ApiState
commit_announced (err e) s = (err e, s)
commit_announced (ok w) s =
    let s' = record s { auth = record s.auth { db = w.db } } in
    ((if w.is_answered then ok Reply.written else err unexpected), s')

abbrev pub answer {ℓ} :
    {Token : Type 0} {A : Type ℓ}
    → (A → Reply Token)
    → Result A
    → ApiState
    → Result (Reply Token) × ApiState
answer reply (err e) s = (err e, s)
answer reply (ok a) s = (ok (reply a), s)

abbrev pub with_auth :
    {Token : Type 0}
    → ApiState
    → Result (Session Token) × AuthState
    → Result (Reply Token) × ApiState
with_auth s (err e, auth) = (err e, record s { auth = auth })
with_auth s (ok session, auth) = (ok (Reply.session session), record s { auth = auth })

module _ {Token : Type 0} (crypto : Crypto Token) (template : CreateJob → Json) where
  -- One preHandler, for the user that an earlier one has attached.
  pub pre_handle :
      Context Token → Call → PreHandler → Option ℕ → ApiState → Result (Option ℕ) × ApiState
  unfolding limit_rate
  pre_handle ctx call authenticate user s =
      ((do payload ← require_auth crypto (ctx.now / 1000) ctx.sent; ok (some payload.sub)), s)
  pre_handle ctx call (org_member role) user s =
      (keep_user user (require_org_member role user (params_of call) s.auth.db), s)
  pre_handle ctx call (limited at) user s =
      let (r, s') = limit_rate ctx.now ctx.limiter_up (identity user ctx.ip) at s in
      (keep_user user r, s')

  pub run_chain :
      Context Token → Call → List PreHandler → Option ℕ → ApiState → Result (Option ℕ) × ApiState
  unfolding pre_handle
  run_chain ctx call [] user s = (ok user, s)
  run_chain ctx call (h ∷ hs) user s =
      let (r, s') = pre_handle ctx call h user s in
      elim r [ err e ↦ (err e, s') | ok user' ↦ run_chain ctx call hs user' s' ]

  -- The handlers of the routes that `requireAuth` guards, for the user that it attached.
  pub handle_user : Context Token → Call → ℕ → ApiState → Result (Reply Token) × ApiState
  handle_user ctx (Call.create_project id api_key org_id name) user s =
      commit (create_project user ctx.now id api_key org_id name s.auth.db) s
  handle_user ctx (Call.list_projects (page, limit)) user s =
      (ok (Reply.projects (list_projects user page limit s.auth.db)), s)
  handle_user ctx (Call.get_project id) user s =
      answer Reply.project (get_project user id s.auth.db) s
  handle_user ctx (Call.create_queue id project_id body) user s =
      commit (create_queue ctx.now id project_id body s.auth.db) s
  handle_user ctx (Call.list_queues project_id (page, limit)) user s =
      answer Reply.queues (list_queues project_id page limit s.auth.db) s
  handle_user ctx (Call.update_queue id body) user s = commit (update_queue id body s.auth.db) s
  handle_user ctx (Call.queue_stats id) user s =
      answer Reply.stats (queue_stats ctx.now id s.auth.db) s
  handle_user ctx (Call.create_job id queue_id body) user s =
      commit_announced (create_job ctx.publishes template ctx.now id queue_id body s.auth.db) s
  handle_user ctx (Call.create_batch id queue_id items) user s =
      commit_announced (create_batch ctx.publishes ctx.now id queue_id items s.auth.db) s
  handle_user ctx (Call.list_jobs query) user s =
      answer Reply.jobs (list_jobs ctx.ties user query s.auth.db) s
  handle_user ctx (Call.get_job id) user s = answer Reply.job (get_job user id s.auth.db) s
  handle_user ctx (Call.list_executions id (page, limit)) user s =
      answer Reply.executions (list_executions user id page limit s.auth.db) s
  handle_user ctx (Call.list_logs id (page, limit)) user s =
      answer Reply.logs (list_logs user id page limit s.auth.db) s
  handle_user ctx (Call.retry id) user s =
      commit_announced (retry ctx.publishes ctx.now id s.auth.db) s
  handle_user ctx (Call.cancel id) user s =
      commit_announced (cancel ctx.publishes ctx.now id s.auth.db) s
  handle_user ctx (Call.list_workers status (page, limit)) user s =
      answer Reply.workers (list_workers status page limit s.auth.db) s
  handle_user ctx (Call.get_worker id) user s = answer Reply.worker (get_worker id s.auth.db) s
  handle_user ctx (Call.list_heartbeats id) user s =
      answer Reply.heartbeats (list_heartbeats id s.auth.db) s
  handle_user ctx (Call.summary midnight) user s =
      (ok (Reply.totals (summary ctx.now midnight user s.auth.db)), s)
  handle_user ctx _ user s = (err unexpected, s)

  -- Reading `request.user.sub` without a user throws.
  abbrev pub handle_some :
      Context Token → Call → Option ℕ → ApiState → Result (Reply Token) × ApiState
  handle_some ctx call none s = (err unexpected, s)
  handle_some ctx call (some user) s = handle_user ctx call user s

  pub run_handler : Context Token → Call → Option ℕ → ApiState → Result (Reply Token) × ApiState
  unfolding handle_user
  run_handler ctx (Call.register up fresh body) user s =
      with_auth s (register crypto (ctx.now / 1000) up fresh body s.auth)
  run_handler ctx (Call.login up jti body) user s =
      with_auth s (login crypto (ctx.now / 1000) up jti body s.auth)
  run_handler ctx (Call.refresh reads deletes stores jti) user s = with_auth s (
      refresh crypto (ctx.now / 1000) reads deletes stores jti
        (cookie refresh_cookie ctx.sent.cookies) s.auth)
  run_handler ctx (Call.logout up) user s = (
    ok Reply.logged_out,
    record s {
      auth = logout crypto (ctx.now / 1000) up (cookie refresh_cookie ctx.sent.cookies) s.auth;
    },
  )
  run_handler ctx Call.health user s = (ok Reply.healthy, s)
  run_handler ctx call user s = handle_some ctx call user s

  -- A request.
  pub serve : Context Token → Call → ApiState → Result (Reply Token) × ApiState
  unfolding run_chain run_handler
  serve ctx call s =
      let (r, s') = run_chain ctx call (pre_handlers call) none s in
      elim r [ err e ↦ (err e, s') | ok user ↦ run_handler ctx call user s' ]
