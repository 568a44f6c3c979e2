-- ===== src/Handlers/Failures.antt =====
-- worker/src/handlers with worker/src/executor.ts: jobs that no handler can run.
use chronos_job_scheduler.Prelude.{
  ℕ, ◌<◌, ◌≡◌, refl, String, Bool, true, false, Option, none, some, List, arith, ◌&&◌, length,
  Option-cases, inl, inr,
}
use chronos_job_scheduler.Schema.{Db, Job}
use chronos_job_scheduler.Schema.JsonValue.{Json, text_field}
use chronos_job_scheduler.Claimer.Rows.{find_job}
use chronos_job_scheduler.Executor.{Surroundings, has_letter}
use chronos_job_scheduler.Executor.Policy.{EffectivePolicy, resolve_policy}
use chronos_job_scheduler.Executor.Attempts.{attempts, IsBuried, IsUndisturbed, attempts-IsBuried}
use chronos_job_scheduler.Handlers.{
  Environment, Lookup, get_handler, registered, inherited_property, missing, echo, http_request,
  send_email, http_request_handler, send_email_handler, handle, call,
}

abbrev pub is_text : Option String → Bool
is_text none = false
is_text (some s) = true

text_of_some : {o : Option String} → is_text o ≡ true → (s : String) × (o ≡ some s)
text_of_some {o} h = elim (Option-cases o) [ inl e ↦ ground (arith, h, e) | inr found ↦ found ]

-- What the type and the payload of a job have to be for its handler to start.
abbrev pub is_accepted : Lookup → Json → Bool
is_accepted (registered echo) payload = true
is_accepted (registered http_request) payload = is_text (text_field "url" payload)
is_accepted (registered send_email) payload =
    is_text (text_field "to" payload) && is_text (text_field "subject" payload)
is_accepted inherited_property payload = true
is_accepted missing payload = false

handle_refused :
    (env : Environment) (type : String) (payload : Json)
    → is_accepted (get_handler type) payload ≡ false
    → is_text (handle env type payload).1 ≡ true
unfolding handle http_request_handler send_email_handler call
handle_refused env type payload h = go (get_handler type) refl h
  where
    go :
        (found : Lookup)
        → get_handler type ≡ found
        → is_accepted found payload ≡ false
        → is_text (handle env type payload).1 ≡ true
    go (registered echo) e h = cc
    go (registered http_request) e h = elim (Option-cases (text_field "url" payload)) [
      | inl bad ↦ rw (handle, e) (rw (http_request_handler, bad) refl)
      | inr (url, good) ↦ cc
    ]
    go (registered send_email) e h = elim (Option-cases (text_field "to" payload)) [
      | inl bad ↦ rw (handle, e) (rw (send_email_handler, bad) refl)
      | inr (to, good) ↦ elim (Option-cases (text_field "subject" payload)) [
        | inl bad ↦ rw (handle, e) (rw (send_email_handler, good, bad) refl)
        | inr (subject, fine) ↦ cc
      ]
    ]
    go inherited_property e h = cc
    go missing e h = rw (handle, e) refl

-- A job without attempts and dead letter, of a type that has no handler or with a payload that
-- lacks the texts its handler requires, is a dead letter after as many executions as its policy
-- allows (at least one), where no failure transaction throws.
pub refused-IsBuried :
    (env : Environment) (policy : EffectivePolicy) (id worker : ℕ) (ss : List Surroundings)
    (db : Db) (job : Job)
    → find_job id db.jobs ≡ some job
    → job.attempt_count ≡ 0
    → resolve_policy db job ≡ policy
    → has_letter id db.dead_letters ≡ false
    → is_accepted (get_handler job.type) job.payload ≡ false
    → IsUndisturbed ss
    → 0 < policy.max_attempts
    → length ss ≡ policy.max_attempts
    → IsBuried id policy.max_attempts (attempts (handle env) id worker ss db)
refused-IsBuried env policy id worker ss db job found fresh in_force free refused calm some_attempt
      enough =
    let (error, fails) = text_of_some (handle_refused env job.type job.payload refused) in
    attempts-IsBuried (handle env) policy id worker ss 0 db calm some_attempt
      (omega (arith, enough))
      (record {
        job = job;
        found = found;
        used = fresh;
        in_force = in_force;
        error = error;
        fails = fails;
        no_letter = free;
      })
