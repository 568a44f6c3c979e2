-- ===== src/Api/Tests.antt =====
-- api/src/index.ts: the theorems at a server with one user, whose tokens are the user's number.
use mathlib.Core.Option
use mathlib.Core.Path.{subst}
use chronos_job_scheduler.Rbac.{find_job, find_membership}
use chronos_job_scheduler.Api.Isolation.{serve-isolation}
use chronos_job_scheduler.Prelude.{
  ℕ, ◌+◌, ◌-◌, ◌*◌, ◌≤◌, ◌≡◌, refl, arith, true, none, some, [], ◌∷◌,
}
use chronos_job_scheduler.Schema.{JobStatus, UserRole, admin}
use chronos_job_scheduler.Schema.JsonValue.{object, end}
use chronos_job_scheduler.Samples.{empty_db, job, queue}
use chronos_job_scheduler.RateLimit.{job_submission_limit, token}
use chronos_job_scheduler.Auth.Interface.{Crypto, JwtPayload, TokenType}
use chronos_job_scheduler.Jobs.Body.{CreateJob}
use chronos_job_scheduler.Api.{ApiState, Context, serve}
use chronos_job_scheduler.Api.Calls.{Call}
use chronos_job_scheduler.Api.Entitled.{Settles, Entitled, serve-IsEntitled}
use chronos_job_scheduler.Api.Limits.{answered, answered_bound}

abbrev payload : ℕ → JwtPayload
payload user = record {
  sub = user;
  email = "a@b.c";
  role = UserRole.member;
  type = TokenType.access;
  jti = none;
}

abbrev crypto : Crypto ℕ
crypto = record {
  access_ttl = 900;
  refresh_ttl = 604800;
  is_email = λ s. true;
  hash = λ salt password. password;
  compare = λ password hash. true;
  sign = λ issued ttl p. p.sub;
  verify = λ now t. some (payload t);
  verify_request = λ name now request. Option.map payload request.bearer;
}

abbrev state : ApiState
state = record {
  auth = record {
    db = record empty_db {
      queues = queue ∷ [];
      projects = record { id = 3; org_id = 2; name = "p"; api_key = 30; created_at = 0 } ∷ [];
      memberships = record { org_id = 2; user_id = 1; role = admin } ∷ [];
    };
    refresh_jtis = [];
  };
  buckets = λ who at. none;
}

abbrev sent_at : ℕ → Context ℕ
sent_at now = record {
  now = now;
  ip = 0;
  sent = record { bearer = some 1; cookies = [] };
  limiter_up = true;
  publishes = true;
  ties = λ j. j.id;
}

abbrev echo : CreateJob
echo = record {
  type = "echo";
  payload = none;
  run_at = none;
  cron_expression = none;
  retry_policy_id = none;
  idempotency_key = none;
  priority = none;
}

abbrev submit : Call
submit = Call.create_job 50 7 echo

serve-IsEntitled_example :
    Settles
      (Entitled crypto (λ body. object end) (sent_at 1000) submit state.auth.db)
      state
      (serve crypto (λ body. object end) (sent_at 1000) submit state)
serve-IsEntitled_example =
    serve-IsEntitled crypto (λ body. object end) (sent_at 1000) submit state refl

answered_bound_example :
    answered crypto
        (λ body. object end)
        1
        ((sent_at 1000, submit) ∷ (sent_at 1500, submit) ∷ [])
        state
      * token job_submission_limit
    ≤ job_submission_limit.max_tokens * token job_submission_limit
      + (2000 - 1000) * job_submission_limit.max_tokens
answered_bound_example =
    answered_bound crypto (λ body. object end) 1 1000 2000
      ((sent_at 1000, submit) ∷ (sent_at 1500, submit) ∷ []) state tt
      (omega arith, (omega arith, omega arith))

-- A request of user 9, who is in no organization.
abbrev stranger : Context ℕ
stranger = record (sent_at 1000) { sent = record { bearer = some 9; cookies = [] } }

abbrev with_job : ApiState
with_job = record state {
  auth = record state.auth {
    db = record state.auth.db { jobs = job 40 JobStatus.queued 0 0 ∷ [] };
  };
}

serve-isolation_example :
    find_job 40 (serve crypto (λ body. object end) stranger (Call.cancel 40) with_job).1.auth.db
    ≡ some (job 40 JobStatus.queued 0 0)
serve-isolation_example =
    serve-isolation crypto (λ body. object end) stranger (Call.cancel 40) 40 2
      (job 40 JobStatus.queued 0 0) with_job refl refl
      (λ p (valid, access).
        let same : payload 9 ≡ p = cc in
        subst (λ p. find_membership 2 p.sub with_job.auth.db ≡ none) same refl)
