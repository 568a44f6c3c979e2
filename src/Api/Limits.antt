-- ===== src/Api/Limits.antt =====
-- api/src/index.ts with the limiter of api/src/middleware/rateLimit.ts: how many submissions a user gets answered,
-- whatever else reaches the server meanwhile.
use mathlib.Core.Path.{subst}
use chronos_job_scheduler.Prelude.{
  ℕ, ◌+◌, ◌-◌, ◌*◌, ◌≤◌, ◌≡◌, refl, sym, Bool, true, false, ◌&&◌, Option, none, some, List, [], ◌∷◌,
  map, if◌then◌else◌, arith, inl, inr,
}
use chronos_job_scheduler.Schema.JsonValue.{Json}
use chronos_job_scheduler.RateLimit.{RateLimitConfig, Bucket, job_submission_limit, check, token}
use chronos_job_scheduler.RateLimit.Expiry.{check-held}
use chronos_job_scheduler.RateLimit.Supply.{IsTimeline, timeline_le, add_stretches}
use chronos_job_scheduler.RateLimit.Window.{
  available, IsBefore, available_later, check_takes, available_max, available_after,
}
use chronos_job_scheduler.Scope.Members.{is_ok}
use chronos_job_scheduler.Auth.Interface.{Crypto}
use chronos_job_scheduler.Jobs.Body.{CreateJob}
use chronos_job_scheduler.Api.{ApiState, Context, found_bucket, serve}
use chronos_job_scheduler.Api.Calls.{Call}
use chronos_job_scheduler.Api.Meters.{is_submission, bucket_of, is_sent_by, serve-Meters}

check-found :
    (c : RateLimitConfig) (now : ℕ) (o : Option Bucket)
    → check c now (found_bucket c now o) ≡ check c now o
check-found c now none = refl
check-found c now (some b) = check-held c now b

module _ {Token : Type 0} (crypto : Crypto Token) (template : CreateJob → Json) where
  -- How many of the requests are submissions of the user that the server answers.
  pub answered : ℕ → List (Context Token × Call) → ApiState → ℕ
  unfolding serve
  answered user [] s = 0
  answered user ((ctx, call) ∷ requests) s =
      let (r, s') = serve crypto template ctx call s in
      (if is_submission call && is_sent_by crypto template user ctx && is_ok r then 1 else 0)
      + answered user requests s'

one_more :
    (counted allowed : Bool) (n unit left have late : ℕ)
    → (counted ≡ true → allowed ≡ true)
    → (if allowed then unit else 0) + left ≤ have
    → n * unit ≤ left + late
    → ((if counted then 1 else 0) + n) * unit ≤ have + late
one_more true true n unit left have late h g e = omega (arith, g, e)
one_more false true n unit left have late h g e = omega (arith, g, e)
one_more true false n unit left have late h g e = let impossible : false ≡ true = h refl in cc
one_more false false n unit left have late h g e = omega (arith, g, e)

IsBefore-later :
    (start now : ℕ) (o : Option Bucket) → start ≤ now → IsBefore start o → IsBefore now o
IsBefore-later start now none later before = tt
IsBefore-later start now (some b) later before = omega arith

-- The same for what the limiter finds under the key, expired or not.
takes_found :
    (c : RateLimitConfig) (now : ℕ) (o : Option Bucket)
    → let (d, b) = check c now (found_bucket c now o) in
      ((if d.allowed then token c else 0) + b.tokens ≤ available c now o) × (b.last_refill ≡ now)
takes_found c now o = rw (check-found c now o) (check_takes c now o)

module _ {Token : Type 0} (crypto : Crypto Token) (template : CreateJob → Json) where
  abbrev c : RateLimitConfig
  c = job_submission_limit

  -- From what the limiter finds at the first moment on.
  answered-available :
      (user start end : ℕ) (requests : List (Context Token × Call)) (s : ApiState)
      → IsBefore start (bucket_of user s)
      → IsTimeline start end (map (λ (r : Context Token × Call). r.0.now) requests)
      → answered crypto template user requests s * token c
        ≤ available c start (bucket_of user s) + (end - start) * c.max_tokens
  unfolding answered
  answered-available user start end [] s before times = omega arith
  answered-available user start end ((ctx, call) ∷ requests) s before (later, times) =
      let (r, s') = serve crypto template ctx call s in
      let counted = is_submission call && is_sent_by crypto template user ctx && is_ok r in
      let rest = answered-available user ctx.now end requests s' in
      let grown = available_later c start ctx.now (bucket_of user s) before later in
      let stretch =
        add_stretches start ctx.now end c.max_tokens later (timeline_le ctx.now end _ times) in
      elim (serve-Meters crypto template ctx call user s) [
        | inl (same, uncounted) ↦
            let later_rest =
              rest (IsBefore-later start ctx.now _ later (subst (IsBefore start) (sym same) before))
                times in
            let found =
              subst
                (λ o.
                  answered crypto template user requests s' * token c
                  ≤ available c ctx.now o + (end - ctx.now) * c.max_tokens)
                same later_rest in
            rw uncounted (omega (arith, found, grown, stretch))
        | inr (used, allowed) ↦
            let (d, b) = check c ctx.now (found_bucket c ctx.now (bucket_of user s)) in
            let (taken, at) = takes_found c ctx.now (bucket_of user s) in
            let later_rest = rest (subst (IsBefore ctx.now) (sym used) (omega (arith, at))) times in
            let found =
              subst
                (λ o.
                  answered crypto template user requests s' * token c
                  ≤ available c ctx.now o + (end - ctx.now) * c.max_tokens)
                used later_rest in
            let left = available_after c ctx.now b at in
            let spent =
              one_more counted d.allowed (answered crypto template user requests s') (token c)
                b.tokens (available c ctx.now (bucket_of user s)) ((end - ctx.now) * c.max_tokens)
                allowed taken (omega (arith, found, left)) in
            omega (arith, spent, grown, stretch)
      ]

  -- Whatever requests reach the server, at times in order and between two moments: the submissions of a
  -- user that are answered, of single jobs and of batches together, are at most `maxTokens` and as many
  -- more for each window of time that passes between the moments. The bucket there may be at first is not
  -- from later than the first moment.
  pub answered_bound :
      (user start end : ℕ) (requests : List (Context Token × Call)) (s : ApiState)
      → IsBefore start (bucket_of user s)
      → IsTimeline start end (map (λ (r : Context Token × Call). r.0.now) requests)
      → answered crypto template user requests s * token job_submission_limit
        ≤ job_submission_limit.max_tokens * token job_submission_limit
          + (end - start) * job_submission_limit.max_tokens
  answered_bound user start end requests s before times = omega (
    arith,
    answered-available user start end requests s before times,
    available_max job_submission_limit start (bucket_of user s),
  )
