-- ===== src/Api/Meters.antt =====
-- api/src/index.ts with the limiter of api/src/middleware/rateLimit.ts: what a request does to the bucket for a
-- user's submissions.
use mathlib.Core.Path.{subst}
use chronos_job_scheduler.Prelude.{
  ℕ, ◌/◌, ◌≡◌, refl, sym, ap, ◌∙◌, Bool, true, false, Bool-cases, ◌&&◌, Option, none, some, List,
  [], ◌∷◌, ◌⊎◌, inl, inr, ◌==◌, if◌then◌else◌, or_false, ==→eq, ==_self, and_true,
}
use chronos_job_scheduler.Schema.{member}
use chronos_job_scheduler.Schema.JsonValue.{Json}
use chronos_job_scheduler.Errors.{Result, ok, err, Thrown, Result-cases}
use chronos_job_scheduler.RateLimit.{Bucket, job_submission_limit, check}
use chronos_job_scheduler.Scope.Members.{is_ok}
use chronos_job_scheduler.Auth.{jwt_cookie, require_auth}
use chronos_job_scheduler.Auth.Interface.{Crypto, JwtPayload}
use chronos_job_scheduler.Auth.Tokens.{require_auth-ok}
use chronos_job_scheduler.Rbac.{require_org_member}
use chronos_job_scheduler.Jobs.Body.{CreateJob}
use chronos_job_scheduler.Api.{
  ApiState, Identity, same_identity, Context, found_bucket, identity, limit_rate, pre_handle,
  run_chain, run_handler, serve,
}
use chronos_job_scheduler.Api.Calls.{
  Call, Endpoint, PreHandler, authenticate, org_member, limited, pre_handlers, params_of,
}
use chronos_job_scheduler.Api.Buckets.{run_handler-buckets}

abbrev pub is_submission : Call → Bool
is_submission (Call.create_job id queue_id body) = true
is_submission (Call.create_batch id queue_id items) = true
is_submission call = false

-- The user's bucket for submissions.
abbrev pub bucket_of : ℕ → ApiState → Option Bucket
bucket_of user s = s.buckets (Identity.by_user user) Endpoint.job_submission

module _ {Token : Type 0} (crypto : Crypto Token) (template : CreateJob → Json) where
  -- The request's token is of this user.
  abbrev pub is_sent_by : ℕ → Context Token → Bool
  is_sent_by user ctx =
      or_false (λ (p : JwtPayload). p.sub == user)
        (crypto.verify_request jwt_cookie (ctx.now / 1000) ctx.sent)

-- The user's bucket is left alone, and nothing is counted; or the script has run on it, and what is counted
-- was allowed.
abbrev pub Meters : ℕ → ℕ → ApiState → ApiState → Bool → Type 0
Meters user now s s' counted =
    let found = found_bucket job_submission_limit now (bucket_of user s) in
    let (d, b) = check job_submission_limit now found in
    ((bucket_of user s' ≡ bucket_of user s) × (counted ≡ false))
    ⊎ ((bucket_of user s' ≡ some b) × (counted ≡ true → d.allowed ≡ true))

and_false : (b : Bool) → (b && false) ≡ false
and_false true = refl
and_false false = refl

if_ok : (b : Bool) (e : Thrown) → is_ok {A = Unit {0}} (if b then ok tt else err e) ≡ b
if_ok true e = refl
if_ok false e = refl

-- What happens after the limiter can only count less.
Meters-and :
    (user now : ℕ) (s s' s'' : ApiState) (a b : Bool)
    → Meters user now s s' (a && true)
    → bucket_of user s'' ≡ bucket_of user s'
    → Meters user now s s'' (a && b)
Meters-and user now s s' s'' true b (inl (same, uncounted)) kept = cc
Meters-and user now s s' s'' false b (inl (same, uncounted)) kept = inl (kept ∙ same, refl)
Meters-and user now s s' s'' true b (inr (used, allowed)) kept =
    inr (kept ∙ used, λ counted. allowed refl)
Meters-and user now s s' s'' false b (inr (used, allowed)) kept = inr (kept ∙ used, λ counted. cc)

limit_rate-Meters :
    (user id now : ℕ) (up : Bool) (s : ApiState)
    → let (r, s') = limit_rate now up (Identity.by_user id) Endpoint.job_submission s in
      Meters user now s s' ((id == user) && is_ok r)
unfolding limit_rate
limit_rate-Meters user id now false s = inl (refl, and_false (id == user))
limit_rate-Meters user id now true s = elim (Bool-cases (id == user)) [
  | inr other ↦ rw other (inl (refl, refl))
  | inl same ↦
      let after : ℕ → Result (Unit {0}) × ApiState =
        λ i. limit_rate now true (Identity.by_user i) Endpoint.job_submission s in
      subst (λ i. Meters user now s (after i).1 ((i == user) && is_ok (after i).0))
        (sym (==→eq id user same))
        (rw (==_self user) (inr (refl, λ counted. sym (if_ok _ _) ∙ counted)))
]

module _ {Token : Type 0} (crypto : Crypto Token) (template : CreateJob → Json)
    (ctx : Context Token) where
  -- The preHandlers of a submission.
  submission-Meters :
      (call : Call) (user : ℕ) (s : ApiState)
      → let hs = authenticate ∷ org_member member ∷ limited Endpoint.job_submission ∷ [] in
        let (r, s') = run_chain crypto template ctx call hs none s in
        Meters user ctx.now s s' (is_sent_by crypto template user ctx && is_ok r)
  unfolding run_chain pre_handle
  submission-Meters call user s =
      elim (Result-cases (require_auth crypto (ctx.now / 1000) ctx.sent)) [
        | inr (e, refused) ↦ rw (run_chain, pre_handle, refused) (inl (refl, and_false _))
        | inl (p, known) ↦
            let (valid, access) = require_auth-ok crypto (ctx.now / 1000) ctx.sent p known in
            elim (Result-cases
              (require_org_member member (some p.sub) (params_of call) s.auth.db)) [
                | inr (e, refused) ↦
                    rw (run_chain, pre_handle, known, pre_handle, refused) (inl (refl, and_false _))
                | inl (tt, passed) ↦
                    let (r, s') =
                      limit_rate ctx.now ctx.limiter_up (Identity.by_user p.sub)
                        Endpoint.job_submission s in
                    let metered : (r' : Result (Unit {0}))
                        → r ≡ r'
                        → Meters user ctx.now s s' ((p.sub == user) && is_ok r') =
                      λ r' same.
                        subst (λ r. Meters user ctx.now s s' ((p.sub == user) && is_ok r)) same
                          (limit_rate-Meters user p.sub ctx.now ctx.limiter_up s) in
                    elim (Result-cases r) [
                      | inr (e, refused) ↦
                          rw (run_chain, pre_handle, known, passed, refused, valid)
                            (metered (err e) refused)
                      | inl (tt, allowed) ↦
                          rw (run_chain, pre_handle, known, passed, allowed, valid)
                            (metered (ok tt) allowed)
                    ]
              ]
      ]

  -- The preHandlers that leave the buckets for submissions alone.
  abbrev is_other : PreHandler → Bool
  is_other authenticate = true
  is_other (org_member role) = true
  is_other (limited Endpoint.auth) = true
  is_other (limited Endpoint.job_submission) = false

  abbrev are_others : List PreHandler → Bool
  are_others [] = true
  are_others (h ∷ hs) = is_other h && are_others hs

  limit_rate-auth_bucket :
      (user now : ℕ) (up : Bool) (who : Identity) (s : ApiState)
      → bucket_of user (limit_rate now up who Endpoint.auth s).1 ≡ bucket_of user s
  unfolding limit_rate
  limit_rate-auth_bucket user now false who s = refl
  limit_rate-auth_bucket user now true who s =
      rw (and_false (same_identity who (Identity.by_user user))) refl

  pre_handle-bucket :
      (call : Call) (h : PreHandler) (before : Option ℕ) (user : ℕ) (s : ApiState)
      → is_other h ≡ true
      → bucket_of user (pre_handle crypto template ctx call h before s).1 ≡ bucket_of user s
  unfolding pre_handle
  pre_handle-bucket call authenticate before user s other = refl
  pre_handle-bucket call (org_member role) before user s other = refl
  pre_handle-bucket call (limited Endpoint.auth) before user s other =
      limit_rate-auth_bucket user ctx.now ctx.limiter_up (identity before ctx.ip) s
  pre_handle-bucket call (limited Endpoint.job_submission) before user s other = cc

  run_chain-bucket :
      (call : Call) (hs : List PreHandler) (before : Option ℕ) (user : ℕ) (s : ApiState)
      → are_others hs ≡ true
      → bucket_of user (run_chain crypto template ctx call hs before s).1 ≡ bucket_of user s
  unfolding run_chain
  run_chain-bucket call [] before user s others = refl
  run_chain-bucket call (h ∷ hs) before user s others =
      let (other, rest) = and_true (is_other h) (are_others hs) others in
      let s' = (pre_handle crypto template ctx call h before s).1 in
      let kept = pre_handle-bucket call h before user s other in
      elim (Result-cases (pre_handle crypto template ctx call h before s).0) [
        | inr (e, refused) ↦ rw (run_chain, refused) kept
        | inl (after, passed) ↦
            rw (run_chain, passed) (run_chain-bucket call hs after user s' rest ∙ kept)
      ]

  serve-bucket :
      (call : Call) (user : ℕ) (s : ApiState)
      → are_others (pre_handlers call) ≡ true
      → bucket_of user (serve crypto template ctx call s).1 ≡ bucket_of user s
  unfolding serve
  serve-bucket call user s others =
      let (r, s') = run_chain crypto template ctx call (pre_handlers call) none s in
      let kept = run_chain-bucket call (pre_handlers call) none user s others in
      elim (Result-cases r) [
        | inr (e, refused) ↦ rw (serve, refused) kept
        | inl (after, passed) ↦
            rw (serve, passed)
              (ap (λ b. b (Identity.by_user user) Endpoint.job_submission)
                  (run_handler-buckets crypto template ctx call after s')
                ∙ kept)
      ]

  -- A chain that fails ends the request; after one that does not, no bucket changes.
  after_chain-Meters :
      (call : Call) (user : ℕ) (s : ApiState)
      → let (r, s') = run_chain crypto template ctx call (pre_handlers call) none s in
        Meters user ctx.now s s' (is_sent_by crypto template user ctx && is_ok r)
        → let (r, s') = serve crypto template ctx call s in
          Meters user ctx.now s s' (is_sent_by crypto template user ctx && is_ok r)
  unfolding serve
  after_chain-Meters call user s metered =
      let (r, s') = run_chain crypto template ctx call (pre_handlers call) none s in
      let sent = is_sent_by crypto template user ctx in
      let as_is : (r' : Result (Option ℕ)) → r ≡ r' → Meters user ctx.now s s' (sent && is_ok r') =
        λ r' same. subst (λ r. Meters user ctx.now s s' (sent && is_ok r)) same metered in
      elim (Result-cases r) [
        | inr (e, refused) ↦ rw (serve, refused) (as_is (err e) refused)
        | inl (after, passed) ↦
            rw (serve, passed)
              (Meters-and user ctx.now s s' (run_handler crypto template ctx call after s').1 sent _
                (as_is (ok after) passed)
                (ap (λ b. b (Identity.by_user user) Endpoint.job_submission)
                  (run_handler-buckets crypto template ctx call after s')))
      ]

  pub serve-Meters :
      (call : Call) (user : ℕ) (s : ApiState)
      → let (r, s') = serve crypto template ctx call s in
        Meters user ctx.now s s'
          (is_submission call && is_sent_by crypto template user ctx && is_ok r)
  serve-Meters (Call.create_job id queue_id body) user s =
      let call = Call.create_job id queue_id body in
      after_chain-Meters call user s (submission-Meters call user s)
  serve-Meters (Call.create_batch id queue_id items) user s =
      let call = Call.create_batch id queue_id items in
      after_chain-Meters call user s (submission-Meters call user s)
  serve-Meters call user s = inl (serve-bucket call user s refl, refl)
