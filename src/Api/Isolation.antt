-- ===== src/Api/Isolation.antt =====
-- api/src/routes: whatever a request does, the jobs of an organization are out of the reach of others.
use mathlib.Core.Path.{subst}
use chronos_job_scheduler.Prelude.{
  ℕ, ◌/◌, ◌==◌, ==→eq, ◌≡◌, refl, sym, ap, ◌∙◌, Bool, true, false, Bool-cases, Option, none, some,
  inl, inr, find_unique,
}
use chronos_job_scheduler.Schema.{Db, Job, member}
use chronos_job_scheduler.Schema.JsonValue.{Json}
use chronos_job_scheduler.Errors.{Result, ok, err}
use chronos_job_scheduler.Rbac.{find_job, find_membership, org_of_job}
use chronos_job_scheduler.Rbac.Roles.{HasRole, require_org_member-job}
use chronos_job_scheduler.Auth.{AuthState, Session, logout, refresh_cookie}
use chronos_job_scheduler.Auth.Interface.{Crypto, JwtPayload, cookie}
use chronos_job_scheduler.Auth.Runs.{Action, step}
use chronos_job_scheduler.Auth.Kept.{step-jobs}
use chronos_job_scheduler.Projects.Members.{create_project-jobs}
use chronos_job_scheduler.Queues.Kept.{create_queue-jobs, update_queue-jobs}
use chronos_job_scheduler.Jobs.Kept.{
  Appends-find_job, create_job-Appends, create_batch-Appends, retry-find_job, cancel-find_job,
}
use chronos_job_scheduler.Jobs.{Written}
use chronos_job_scheduler.Jobs.Body.{CreateJob}
use chronos_job_scheduler.Api.{
  ApiState, Context, commit, commit_announced, answer, with_auth, handle_user, run_chain,
  run_handler, serve,
}
use chronos_job_scheduler.Api.Calls.{Call, Reply, pre_handlers}
use chronos_job_scheduler.Api.Access.{IsLoggedIn, Passed, run_chain-Passed}

-- The row of a job is as it is in this one.
abbrev Keeps : ℕ → Job → Db → Type 0
Keeps k j db = find_job k db ≡ some j

Keeps-jobs : (k : ℕ) (j : Job) (db db' : Db) → db'.jobs ≡ db.jobs → Keeps k j db → Keeps k j db'
Keeps-jobs k j db db' same h = ap (find_unique (λ (i : Job). i.id) k) same ∙ h

module _ (Token : Type 0) (k : ℕ) (j : Job) (s : ApiState) where
  Keeps-commit :
      (r : Result Db)
      → ((db : Db) → r ≡ ok db → Keeps k j s.auth.db → Keeps k j db)
      → Keeps k j s.auth.db
      → Keeps k j (commit {Token = Token} r s).1.auth.db
  Keeps-commit (err e) f h = h
  Keeps-commit (ok db) f h = f db refl h

  Keeps-commit_announced :
      (r : Result Written)
      → ((w : Written) → r ≡ ok w → Keeps k j s.auth.db → Keeps k j w.db)
      → Keeps k j s.auth.db
      → Keeps k j (commit_announced {Token = Token} r s).1.auth.db
  Keeps-commit_announced (err e) f h = h
  Keeps-commit_announced (ok w) f h = f w refl h

  Keeps-answer :
      {A : Type 0} (reply : A → Reply Token) (r : Result A)
      → Keeps k j s.auth.db
      → Keeps k j (answer reply r s).1.auth.db
  Keeps-answer reply (err e) h = h
  Keeps-answer reply (ok a) h = h

  Keeps-with_auth :
      (r : Result (Session Token)) (auth : AuthState)
      → auth.db.jobs ≡ s.auth.db.jobs
      → Keeps k j s.auth.db
      → Keeps k j (with_auth s (r, auth)).1.auth.db
  Keeps-with_auth (err e) auth same h = Keeps-jobs k j s.auth.db auth.db same h
  Keeps-with_auth (ok t) auth same h = Keeps-jobs k j s.auth.db auth.db same h

-- The call is to change the job with the identifier.
abbrev changes : ℕ → Call → Bool
changes k (Call.retry id) = k == id
changes k (Call.cancel id) = k == id
changes k call = false

module _ {Token : Type 0} (crypto : Crypto Token) (template : CreateJob → Json)
    (ctx : Context Token) where
  handle_user-Keeps :
      (call : Call) (user k : ℕ) (j : Job) (s : ApiState)
      → changes k call ≡ false
      → Keeps k j s.auth.db
      → Keeps k j (handle_user crypto template ctx call user s).1.auth.db
  unfolding handle_user
  handle_user-Keeps (Call.create_project id key org name) user k j s other h =
      Keeps-commit Token k j s _
        (λ db done.
          Keeps-jobs k j s.auth.db db
            (create_project-jobs user ctx.now id key org name s.auth.db done))
        h
  handle_user-Keeps (Call.get_project id) user k j s other h =
      Keeps-answer Token k j s Reply.project _ h
  handle_user-Keeps (Call.create_queue id project body) user k j s other h =
      Keeps-commit Token k j s _
        (λ db done.
          Keeps-jobs k j s.auth.db db (create_queue-jobs ctx.now id project body s.auth.db done))
        h
  handle_user-Keeps (Call.list_queues project (page, limit)) user k j s other h =
      Keeps-answer Token k j s Reply.queues _ h
  handle_user-Keeps (Call.update_queue id body) user k j s other h =
      Keeps-commit Token k j s _
        (λ db done. Keeps-jobs k j s.auth.db db (update_queue-jobs id body s.auth.db done)) h
  handle_user-Keeps (Call.queue_stats id) user k j s other h =
      Keeps-answer Token k j s Reply.stats _ h
  handle_user-Keeps (Call.create_job id queue body) user k j s other h =
      Keeps-commit_announced Token k j s _
        (λ w done.
          Appends-find_job k s.auth.db w.db
            (create_job-Appends ctx.publishes template ctx.now id queue body s.auth.db done))
        h
  handle_user-Keeps (Call.create_batch id queue items) user k j s other h =
      Keeps-commit_announced Token k j s _
        (λ w done.
          Appends-find_job k s.auth.db w.db
            (create_batch-Appends ctx.publishes ctx.now id queue items s.auth.db done))
        h
  handle_user-Keeps (Call.list_jobs query) user k j s other h =
      Keeps-answer Token k j s Reply.jobs _ h
  handle_user-Keeps (Call.get_job id) user k j s other h = Keeps-answer Token k j s Reply.job _ h
  handle_user-Keeps (Call.list_executions id (page, limit)) user k j s other h =
      Keeps-answer Token k j s Reply.executions _ h
  handle_user-Keeps (Call.list_logs id (page, limit)) user k j s other h =
      Keeps-answer Token k j s Reply.logs _ h
  handle_user-Keeps (Call.retry id) user k j s other h =
      Keeps-commit_announced Token k j s _
        (λ w done. λ kept. retry-find_job ctx.publishes ctx.now id k s.auth.db done other ∙ kept) h
  handle_user-Keeps (Call.cancel id) user k j s other h =
      Keeps-commit_announced Token k j s _
        (λ w done. λ kept. cancel-find_job ctx.publishes ctx.now id k s.auth.db done other ∙ kept) h
  handle_user-Keeps (Call.list_workers status (page, limit)) user k j s other h =
      Keeps-answer Token k j s Reply.workers _ h
  handle_user-Keeps (Call.get_worker id) user k j s other h =
      Keeps-answer Token k j s Reply.worker _ h
  handle_user-Keeps (Call.list_heartbeats id) user k j s other h =
      Keeps-answer Token k j s Reply.heartbeats _ h
  handle_user-Keeps call user k j s other h = h

  run_handler-Keeps :
      (call : Call) (after : Option ℕ) (k : ℕ) (j : Job) (s : ApiState)
      → changes k call ≡ false
      → Keeps k j s.auth.db
      → Keeps k j (run_handler crypto template ctx call after s).1.auth.db
  unfolding run_handler step
  run_handler-Keeps (Call.register up fresh body) after k j s other h =
      Keeps-with_auth Token k j s _ _
        (step-jobs crypto (Action.registers (ctx.now / 1000) up fresh body) s.auth) h
  run_handler-Keeps (Call.login up jti body) after k j s other h =
      Keeps-with_auth Token k j s _ _
        (step-jobs crypto (Action.logs_in (ctx.now / 1000) up jti body) s.auth) h
  run_handler-Keeps (Call.refresh reads deletes stores jti) after k j s other h =
      Keeps-with_auth Token k j s _ _
        (step-jobs crypto
          (Action.refreshes (ctx.now / 1000) reads deletes stores jti
            (cookie refresh_cookie ctx.sent.cookies))
          s.auth)
        h
  run_handler-Keeps (Call.logout up) after k j s other h =
      let sent = cookie refresh_cookie ctx.sent.cookies in
      Keeps-jobs k j s.auth.db (logout crypto (ctx.now / 1000) up sent s.auth).db
        (step-jobs crypto (Action.logs_out (ctx.now / 1000) up sent) s.auth) h
  run_handler-Keeps Call.health after k j s other h = h
  run_handler-Keeps call none k j s other h = h
  run_handler-Keeps call (some user) k j s other h = handle_user-Keeps call user k j s other h

  outsider {κ} :
      {P : Type κ} (db : Db) (k id org user : ℕ) (j : Job)
      → (k == id) ≡ true
      → find_job k db ≡ some j
      → org_of_job db (some j) ≡ some org
      → find_membership org user db ≡ none
      → HasRole db user member (org_of_job db (find_job id db))
      → P
  outsider db k id org user j same found of stranger (o, m, org_is, belongs, high) =
      let here : org_of_job db (find_job id db) ≡ some org =
        subst (λ i. org_of_job db (find_job i db) ≡ some org) (==→eq k id same)
          (ap (org_of_job db) found ∙ of) in
      let one : org ≡ o = cc in let both : some m ≡ none = cc in cc

  -- Nobody else passes the preHandlers of a call that changes the job.
  changes-Passed {κ} :
      {P : Type κ} (call : Call) (after : Option ℕ) (k org : ℕ) (j : Job) (db : Db)
      → changes k call ≡ true
      → find_job k db ≡ some j
      → org_of_job db (some j) ≡ some org
      → ((payload : JwtPayload)
          → IsLoggedIn crypto template ctx payload
          → find_membership org payload.sub db ≡ none)
      → Passed crypto template ctx call db (pre_handlers call) none after
      → P
  changes-Passed (Call.retry id) after k org j db same found of strangers (p, li, (role, eq)) =
      outsider db k id org p.sub j same found of (strangers p li)
        (require_org_member-job member p.sub id db role)
  changes-Passed (Call.cancel id) after k org j db same found of strangers (p, li, (role, eq)) =
      outsider db k id org p.sub j same found of (strangers p li)
        (require_org_member-job member p.sub id db role)
  changes-Passed call after k org j db same found of strangers passed = cc

  -- Whatever a request asks for, by whichever route: a job of an organization stays as it is, unless the
  -- request carries a valid access token of a member of the organization.
  pub serve-isolation :
      (call : Call) (k org : ℕ) (j : Job) (s : ApiState)
      → find_job k s.auth.db ≡ some j
      → org_of_job s.auth.db (some j) ≡ some org
      → ((payload : JwtPayload)
          → IsLoggedIn crypto template ctx payload
          → find_membership org payload.sub s.auth.db ≡ none)
      → find_job k (serve crypto template ctx call s).1.auth.db ≡ some j
  unfolding serve
  serve-isolation call k org j s found of strangers =
      let (kept, chain) = run_chain-Passed crypto template ctx call (pre_handlers call) none s in
      let s' = (run_chain crypto template ctx call (pre_handlers call) none s).1 in
      let found' : Keeps k j s'.auth.db =
        subst (λ (a : AuthState). Keeps k j a.db) (sym kept) found in
      elim chain [
        | inr (e, refused) ↦ rw (serve, refused) found'
        | inl (after, r, passed) ↦ elim (Bool-cases (changes k call)) [
          | inl same ↦ changes-Passed call after k org j s.auth.db same found of strangers passed
          | inr other ↦ rw (serve, r) (run_handler-Keeps call after k j s' other found')
        ]
      ]
