-- ===== src/Api/Buckets.antt =====
-- The handlers of api/src/index.ts: none of them touches a bucket of the limiter.
use chronos_job_scheduler.Prelude.{ℕ, ◌≡◌, refl, Option, none, some}
use chronos_job_scheduler.Schema.{Db}
use chronos_job_scheduler.Schema.JsonValue.{Json}
use chronos_job_scheduler.Errors.{Result, ok, err}
use chronos_job_scheduler.Auth.{AuthState, Session}
use chronos_job_scheduler.Auth.Interface.{Crypto}
use chronos_job_scheduler.Jobs.{Written}
use chronos_job_scheduler.Jobs.Body.{CreateJob}
use chronos_job_scheduler.Api.{
  ApiState, Context, commit, commit_announced, answer, with_auth, handle_user, run_handler,
}
use chronos_job_scheduler.Api.Calls.{Call, Reply}

commit-buckets :
    (Token : Type 0) (r : Result Db) (s : ApiState)
    → (commit {Token = Token} r s).1.buckets ≡ s.buckets
commit-buckets Token (err e) s = refl
commit-buckets Token (ok db) s = refl

commit_announced-buckets :
    (Token : Type 0) (r : Result Written) (s : ApiState)
    → (commit_announced {Token = Token} r s).1.buckets ≡ s.buckets
commit_announced-buckets Token (err e) s = refl
commit_announced-buckets Token (ok w) s = refl

answer-buckets :
    {Token A : Type 0} (reply : A → Reply Token) (r : Result A) (s : ApiState)
    → (answer reply r s).1.buckets ≡ s.buckets
answer-buckets reply (err e) s = refl
answer-buckets reply (ok a) s = refl

with_auth-buckets :
    {Token : Type 0} (s : ApiState) (r : Result (Session Token)) (auth : AuthState)
    → (with_auth s (r, auth)).1.buckets ≡ s.buckets
with_auth-buckets s (err e) auth = refl
with_auth-buckets s (ok t) auth = refl

module _ {Token : Type 0} (crypto : Crypto Token) (template : CreateJob → Json)
    (ctx : Context Token) where
  handle_user-buckets :
      (call : Call) (user : ℕ) (s : ApiState)
      → (handle_user crypto template ctx call user s).1.buckets ≡ s.buckets
  unfolding handle_user
  handle_user-buckets (Call.create_project id key org name) user s = commit-buckets Token _ s
  handle_user-buckets (Call.get_project id) user s = answer-buckets Reply.project _ s
  handle_user-buckets (Call.create_queue id project body) user s = commit-buckets Token _ s
  handle_user-buckets (Call.list_queues project (page, limit)) user s =
      answer-buckets Reply.queues _ s
  handle_user-buckets (Call.update_queue id body) user s = commit-buckets Token _ s
  handle_user-buckets (Call.queue_stats id) user s = answer-buckets Reply.stats _ s
  handle_user-buckets (Call.create_job id queue body) user s = commit_announced-buckets Token _ s
  handle_user-buckets (Call.create_batch id queue items) user s = commit_announced-buckets Token _ s
  handle_user-buckets (Call.list_jobs query) user s = answer-buckets Reply.jobs _ s
  handle_user-buckets (Call.get_job id) user s = answer-buckets Reply.job _ s
  handle_user-buckets (Call.list_executions id (page, limit)) user s =
      answer-buckets Reply.executions _ s
  handle_user-buckets (Call.list_logs id (page, limit)) user s = answer-buckets Reply.logs _ s
  handle_user-buckets (Call.retry id) user s = commit_announced-buckets Token _ s
  handle_user-buckets (Call.cancel id) user s = commit_announced-buckets Token _ s
  handle_user-buckets (Call.list_workers status (page, limit)) user s =
      answer-buckets Reply.workers _ s
  handle_user-buckets (Call.get_worker id) user s = answer-buckets Reply.worker _ s
  handle_user-buckets (Call.list_heartbeats id) user s = answer-buckets Reply.heartbeats _ s
  handle_user-buckets call user s = refl

  pub run_handler-buckets :
      (call : Call) (user : Option ℕ) (s : ApiState)
      → (run_handler crypto template ctx call user s).1.buckets ≡ s.buckets
  unfolding run_handler
  run_handler-buckets (Call.register up fresh body) user s = with_auth-buckets s _ _
  run_handler-buckets (Call.login up jti body) user s = with_auth-buckets s _ _
  run_handler-buckets (Call.refresh reads deletes stores jti) user s = with_auth-buckets s _ _
  run_handler-buckets (Call.logout up) user s = refl
  run_handler-buckets Call.health user s = refl
  run_handler-buckets call none s = refl
  run_handler-buckets call (some id) s = handle_user-buckets call id s
