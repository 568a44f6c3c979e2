-- ===== src/Api/Entitled.antt =====
-- api/src/routes: what becomes of a request by a user who is not entitled to it.
use mathlib.Core.Path.{subst}
use chronos_job_scheduler.Prelude.{ℕ, ◌≡◌, refl, sym, ◌∙◌, true, Option, none, some, ◌⊎◌, inl, inr}
use chronos_job_scheduler.Schema.{Db, admin, member}
use chronos_job_scheduler.Schema.JsonValue.{Json}
use chronos_job_scheduler.Errors.{Result, ok, err, Thrown}
use chronos_job_scheduler.Rbac.Roles.{
  require_org_member-project, require_org_member-queue, require_org_member-job,
}
use chronos_job_scheduler.Auth.Interface.{Crypto, JwtPayload}
use chronos_job_scheduler.Projects.Members.{create_project-HasRole, get_project-HasRole}
use chronos_job_scheduler.Jobs.Reads.Members.{
  get_job-HasRole, list_executions-HasRole, list_logs-HasRole,
}
use chronos_job_scheduler.Jobs.{Written}
use chronos_job_scheduler.Jobs.Body.{CreateJob}
use chronos_job_scheduler.Api.{
  ApiState, Context, commit, commit_announced, answer, handle_user, run_chain, run_handler, serve,
}
use chronos_job_scheduler.Api.Calls.{Call, Reply, pre_handlers}
use chronos_job_scheduler.Api.Access.{IsEntitled, needs_user, IsLoggedIn, Passed, run_chain-Passed}

-- This holds, or the request fails and leaves the database and the sessions alone.
pub Settles {ℓ} : {A : Type 0} → Type ℓ → ApiState → Result A × ApiState → Type ℓ
Settles {A = A} P s (r, s') = P ⊎ ((e : Thrown) × (r ≡ err e) × (s'.auth ≡ s.auth))

module _ (Token : Type 0) {P : Type 0} (s : ApiState) where
  Settles-commit :
      (r : Result Db) → ((db : Db) → r ≡ ok db → P) → Settles P s (commit {Token = Token} r s)
  unfolding Settles
  Settles-commit (err e) h = inr (e, refl, refl)
  Settles-commit (ok db) h = inl (h db refl)

  Settles-commit_announced :
      (r : Result Written)
      → ((w : Written) → r ≡ ok w → P)
      → Settles P s (commit_announced {Token = Token} r s)
  unfolding Settles
  Settles-commit_announced (err e) h = inr (e, refl, refl)
  Settles-commit_announced (ok w) h = inl (h w refl)

  Settles-answer :
      {A : Type 0} (reply : A → Reply Token) (r : Result A)
      → ((a : A) → r ≡ ok a → P)
      → Settles P s (answer reply r s)
  unfolding Settles
  Settles-answer reply (err e) h = inr (e, refl, refl)
  Settles-answer reply (ok a) h = inl (h a refl)

module _ {Token : Type 0} (crypto : Crypto Token) (template : CreateJob → Json)
    (ctx : Context Token) where
  abbrev pub Entitled : Call → Db → Type 0
  Entitled call db =
      (payload : JwtPayload) × IsLoggedIn crypto template ctx payload
      × IsEntitled db payload.sub call

  abbrev Allowed : Call → Option ℕ → ApiState → Type 0
  Allowed call after s = Passed crypto template ctx call s.auth.db (pre_handlers call) none after

  for_user :
      {after : Option ℕ} {sub : ℕ} (s : ApiState) (call : Call)
      → some sub ≡ after
      → Settles (Entitled call s.auth.db) s (run_handler crypto template ctx call (some sub) s)
      → Settles (Entitled call s.auth.db) s (run_handler crypto template ctx call after s)
  for_user s call eq settled =
      subst (λ a. Settles (Entitled call s.auth.db) s (run_handler crypto template ctx call a s)) eq
        settled

  -- The handlers, for a user whom the preHandlers let through.
  run_handler-Settles :
      (call : Call) (after : Option ℕ) (s : ApiState)
      → needs_user call ≡ true
      → Allowed call after s
      → Settles (Entitled call s.auth.db) s (run_handler crypto template ctx call after s)
  unfolding Settles run_handler handle_user
  run_handler-Settles (Call.register up fresh body) after s needs passed = cc
  run_handler-Settles (Call.login up jti body) after s needs passed = cc
  run_handler-Settles (Call.refresh reads deletes stores jti) after s needs passed = cc
  run_handler-Settles (Call.logout up) after s needs passed = cc
  run_handler-Settles Call.health after s needs passed = cc
  run_handler-Settles (Call.create_project id key org name) after s needs (p, li, eq) =
      for_user s (Call.create_project id key org name) eq (
        Settles-commit Token s _
          (λ db h. (p, li, create_project-HasRole p.sub ctx.now id key org name s.auth.db h)))
  run_handler-Settles (Call.list_projects (page, limit)) after s needs (p, li, eq) =
      for_user s (Call.list_projects (page, limit)) eq (inl (p, li, tt))
  run_handler-Settles (Call.get_project id) after s needs (p, li, eq) =
      for_user s (Call.get_project id) eq (
        Settles-answer Token s Reply.project _
          (λ a h. (p, li, get_project-HasRole p.sub id s.auth.db h)))
  run_handler-Settles (Call.create_queue id project body) after s needs (p, li, (role, eq)) =
      for_user s (Call.create_queue id project body) eq (
        Settles-commit Token s _
          (λ db h. (p, li, require_org_member-project admin p.sub project s.auth.db role)))
  run_handler-Settles (Call.list_queues project (page, limit)) after s needs (p, li, (role, eq)) =
      for_user s (Call.list_queues project (page, limit)) eq (
        Settles-answer Token s Reply.queues _
          (λ a h. (p, li, require_org_member-project member p.sub project s.auth.db role)))
  run_handler-Settles (Call.update_queue id body) after s needs (p, li, (role, eq)) =
      for_user s (Call.update_queue id body) eq (
        Settles-commit Token s _
          (λ db h. (p, li, require_org_member-job admin p.sub id s.auth.db role)))
  run_handler-Settles (Call.queue_stats id) after s needs (p, li, (role, eq)) =
      for_user s (Call.queue_stats id) eq (
        Settles-answer Token s Reply.stats _
          (λ a h. (p, li, require_org_member-job member p.sub id s.auth.db role)))
  run_handler-Settles (Call.create_job id queue body) after s needs (p, li, (role, eq)) =
      for_user s (Call.create_job id queue body) eq (
        Settles-commit_announced Token s _
          (λ db h. (p, li, require_org_member-queue member p.sub queue s.auth.db role)))
  run_handler-Settles (Call.create_batch id queue items) after s needs (p, li, (role, eq)) =
      for_user s (Call.create_batch id queue items) eq (
        Settles-commit_announced Token s _
          (λ db h. (p, li, require_org_member-queue member p.sub queue s.auth.db role)))
  run_handler-Settles (Call.list_jobs query) after s needs (p, li, eq) =
      for_user s (Call.list_jobs query) eq
        (Settles-answer Token s Reply.jobs _ (λ a h. (p, li, tt)))
  run_handler-Settles (Call.get_job id) after s needs (p, li, eq) =
      for_user s (Call.get_job id) eq
        (Settles-answer Token s Reply.job _ (λ a h. (p, li, get_job-HasRole p.sub id s.auth.db h)))
  run_handler-Settles (Call.list_executions id (page, limit)) after s needs (p, li, eq) =
      for_user s (Call.list_executions id (page, limit)) eq (
        Settles-answer Token s Reply.executions _
          (λ a h. (p, li, list_executions-HasRole p.sub id s.auth.db page limit h)))
  run_handler-Settles (Call.list_logs id (page, limit)) after s needs (p, li, eq) =
      for_user s (Call.list_logs id (page, limit)) eq (
        Settles-answer Token s Reply.logs _
          (λ a h. (p, li, list_logs-HasRole p.sub id s.auth.db page limit h)))
  run_handler-Settles (Call.retry id) after s needs (p, li, (role, eq)) =
      for_user s (Call.retry id) eq (
        Settles-commit_announced Token s _
          (λ db h. (p, li, require_org_member-job member p.sub id s.auth.db role)))
  run_handler-Settles (Call.cancel id) after s needs (p, li, (role, eq)) =
      for_user s (Call.cancel id) eq (
        Settles-commit_announced Token s _
          (λ db h. (p, li, require_org_member-job member p.sub id s.auth.db role)))
  run_handler-Settles (Call.list_workers status (page, limit)) after s needs (p, li, eq) =
      for_user s (Call.list_workers status (page, limit)) eq
        (Settles-answer Token s Reply.workers _ (λ a h. (p, li, tt)))
  run_handler-Settles (Call.get_worker id) after s needs (p, li, eq) =
      for_user s (Call.get_worker id) eq
        (Settles-answer Token s Reply.worker _ (λ a h. (p, li, tt)))
  run_handler-Settles (Call.list_heartbeats id) after s needs (p, li, eq) =
      for_user s (Call.list_heartbeats id) eq
        (Settles-answer Token s Reply.heartbeats _ (λ a h. (p, li, tt)))
  run_handler-Settles (Call.summary midnight) after s needs (p, li, eq) =
      for_user s (Call.summary midnight) eq (inl (p, li, tt))

  -- Of the routes other than those of api/src/routes/auth.ts and the health check, each fails and leaves the
  -- database and the sessions as they are, unless the request carries a valid access token of a user who has
  -- the role that the code asks for, where it asks for one: an administrator's for creating and changing
  -- queues, a member's for creating a project in an organization and for the other routes on one project,
  -- queue or job, in the organization that this belongs to. For the settings and the statistics of a
  -- queue it is the organization of the job that has the queue's identifier.
  pub serve-IsEntitled :
      (call : Call) (s : ApiState)
      → needs_user call ≡ true
      → Settles (Entitled call s.auth.db) s (serve crypto template ctx call s)
  unfolding Settles serve
  serve-IsEntitled call s needs =
      let (kept, chain) = run_chain-Passed crypto template ctx call (pre_handlers call) none s in
      let s' = (run_chain crypto template ctx call (pre_handlers call) none s).1 in
      elim chain [
        | inr (e, refused) ↦ rw (serve, refused) (inr (e, refl, kept))
        | inl (after, r, passed) ↦
            let passed' : Allowed call after s' =
              subst (λ a. Passed crypto template ctx call a.db (pre_handlers call) none after)
                (sym kept) passed in
            rw (serve, r)
              (elim (run_handler-Settles call after s' needs passed') [
                | inl entitled ↦ inl (subst (λ a. Entitled call a.db) kept entitled)
                | inr (e, refused, same) ↦ inr (e, refused, same ∙ kept)
              ])
      ]
