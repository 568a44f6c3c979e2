-- ===== src/Api/Access.antt =====
-- api/src/routes: who is answered, whatever the route.
use mathlib.Core.Path.{subst}
use chronos_job_scheduler.Prelude.{
  ℕ, ◌/◌, ◌≡◌, refl, ◌∙◌, Bool, true, false, Option, some, List, [], ◌∷◌, ◌⊎◌, inl, inr,
}
use chronos_job_scheduler.Schema.{Db, admin, member}
use chronos_job_scheduler.Schema.JsonValue.{Json}
use chronos_job_scheduler.Errors.{ok, err, Thrown, Result-cases}
use chronos_job_scheduler.Rbac.{
  find_project, find_queue, find_job, org_of_project, org_of_queue, org_of_job, require_org_member,
}
use chronos_job_scheduler.Rbac.Roles.{HasRole}
use chronos_job_scheduler.Auth.{jwt_cookie, is_access, require_auth}
use chronos_job_scheduler.Auth.Interface.{Crypto, JwtPayload}
use chronos_job_scheduler.Auth.Tokens.{require_auth-ok}
use chronos_job_scheduler.Jobs.Body.{CreateJob}
use chronos_job_scheduler.Api.{
  Identity, ApiState, Context, identity, limit_rate, pre_handle, run_chain,
}
use chronos_job_scheduler.Api.Calls.{
  Endpoint, Call, PreHandler, authenticate, org_member, limited, params_of,
}

-- What a user needs for a call, beside being logged in.
abbrev pub IsEntitled : Db → ℕ → Call → Type 0
IsEntitled db user (Call.create_project id api_key org_id name) =
    HasRole db user member (some org_id)
IsEntitled db user (Call.get_project id) =
    HasRole db user member (org_of_project (find_project id db))
IsEntitled db user (Call.create_queue id project_id body) =
    HasRole db user admin (org_of_project (find_project project_id db))
IsEntitled db user (Call.list_queues project_id page) =
    HasRole db user member (org_of_project (find_project project_id db))
IsEntitled db user (Call.update_queue id body) =
    HasRole db user admin (org_of_job db (find_job id db))
IsEntitled db user (Call.queue_stats id) = HasRole db user member (org_of_job db (find_job id db))
IsEntitled db user (Call.create_job id queue_id body) =
    HasRole db user member (org_of_queue db (find_queue queue_id db))
IsEntitled db user (Call.create_batch id queue_id items) =
    HasRole db user member (org_of_queue db (find_queue queue_id db))
IsEntitled db user (Call.get_job id) = HasRole db user member (org_of_job db (find_job id db))
IsEntitled db user (Call.list_executions id page) =
    HasRole db user member (org_of_job db (find_job id db))
IsEntitled db user (Call.list_logs id page) =
    HasRole db user member (org_of_job db (find_job id db))
IsEntitled db user (Call.retry id) = HasRole db user member (org_of_job db (find_job id db))
IsEntitled db user (Call.cancel id) = HasRole db user member (org_of_job db (find_job id db))
IsEntitled db user call = Unit

-- All but the four routes of api/src/routes/auth.ts and the health check.
abbrev pub needs_user : Call → Bool
needs_user (Call.register up fresh body) = false
needs_user (Call.login up jti body) = false
needs_user (Call.refresh reads deletes stores jti) = false
needs_user (Call.logout up) = false
needs_user Call.health = false
needs_user call = true

pub limit_rate-auth :
    (now : ℕ) (up : Bool) (who : Identity) (at : Endpoint) (s : ApiState)
    → (limit_rate now up who at s).1.auth ≡ s.auth
unfolding limit_rate
limit_rate-auth now false who at s = refl
limit_rate-auth now true who at s = refl

module _ {Token : Type 0} (crypto : Crypto Token) (template : CreateJob → Json) where
  -- The request carries a valid access token with this payload.
  abbrev pub IsLoggedIn : Context Token → JwtPayload → Type 0
  IsLoggedIn ctx payload =
      (crypto.verify_request jwt_cookie (ctx.now / 1000) ctx.sent ≡ some payload)
      × (is_access payload.type ≡ true)

  -- What the preHandlers have made sure of.
  abbrev pub Passed : Context Token → Call → Db → List PreHandler → Option ℕ → Option ℕ → Type 0
  Passed ctx call db [] before after = before ≡ after
  Passed ctx call db (authenticate ∷ hs) before after =
      (payload : JwtPayload) × IsLoggedIn ctx payload
      × Passed ctx call db hs (some payload.sub) after
  Passed ctx call db (org_member role ∷ hs) before after =
      (require_org_member role before (params_of call) db ≡ ok tt)
      × Passed ctx call db hs before after
  Passed ctx call db (limited at ∷ hs) before after = Passed ctx call db hs before after

  -- The preHandlers change neither the database nor the sessions.
  pub run_chain-Passed :
      (ctx : Context Token) (call : Call) (hs : List PreHandler) (before : Option ℕ) (s : ApiState)
      → let (r, s') = run_chain crypto template ctx call hs before s in
        (s'.auth ≡ s.auth)
        × (((after : Option ℕ) × (r ≡ ok after) × Passed ctx call s.auth.db hs before after)
            ⊎ ((e : Thrown) × (r ≡ err e)))
  unfolding run_chain pre_handle
  run_chain-Passed ctx call [] before s = (refl, inl (before, refl, refl))
  run_chain-Passed ctx call (authenticate ∷ hs) before s =
      elim (Result-cases (require_auth crypto (ctx.now / 1000) ctx.sent)) [
        | inr (e, refused) ↦ rw (run_chain, pre_handle, refused) (refl, inr (e, refl))
        | inl (payload, known) ↦
            let logged_in = require_auth-ok crypto (ctx.now / 1000) ctx.sent payload known in
            let (same, rest) = run_chain-Passed ctx call hs (some payload.sub) s in
            rw (run_chain, pre_handle, known)
              (elim rest [
                | inr thrown ↦ (same, inr thrown)
                | inl (after, r, passed) ↦ (same, inl (after, r, (payload, logged_in, passed)))
              ])
      ]
  run_chain-Passed ctx call (org_member role ∷ hs) before s =
      elim (Result-cases (require_org_member role before (params_of call) s.auth.db)) [
        | inr (e, refused) ↦ rw (run_chain, pre_handle, refused) (refl, inr (e, refl))
        | inl (tt, let_through) ↦
            let (same, rest) = run_chain-Passed ctx call hs before s in
            rw (run_chain, pre_handle, let_through)
              (elim rest [
                | inr thrown ↦ (same, inr thrown)
                | inl (after, r, passed) ↦ (same, inl (after, r, (refl, passed)))
              ])
      ]
  run_chain-Passed ctx call (limited at ∷ hs) before s =
      let (r, s') = limit_rate ctx.now ctx.limiter_up (identity before ctx.ip) at s in
      let kept = limit_rate-auth ctx.now ctx.limiter_up (identity before ctx.ip) at s in
      elim (Result-cases r) [
        | inr (e, refused) ↦ rw (run_chain, pre_handle, refused) (kept, inr (e, refl))
        | inl (tt, allowed) ↦
            let (same, rest) = run_chain-Passed ctx call hs before s' in
            rw (run_chain, pre_handle, allowed)
              (elim rest [
                | inr thrown ↦ (same ∙ kept, inr thrown)
                | inl (after, r, passed) ↦ (
                  same ∙ kept,
                  inl (after, r, subst (λ a. Passed ctx call a.db hs before after) kept passed),
                )
              ])
      ]
