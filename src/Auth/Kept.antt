-- ===== src/Auth/Kept.antt =====
-- api/src/routes/auth.ts: no request to these routes changes a job.
use chronos_job_scheduler.Prelude.{ap, ◌∙◌, ◌≡◌, refl, inl, inr}
use chronos_job_scheduler.Schema.{Db}
use chronos_job_scheduler.Errors.{Result-cases}
use chronos_job_scheduler.Auth.{
  AuthState, new_user, check_register, create_user, finish_register, register, check_login, login,
  check_refresh, refresh,
}
use chronos_job_scheduler.Auth.Interface.{Crypto}
use chronos_job_scheduler.Auth.Runs.{Action, step}
use chronos_job_scheduler.Auth.Users.{open_session-db, rotate-db, logout-db, create_user-jobs}

module _ {Token : Type 0} (crypto : Crypto Token) where
  pub step-jobs :
      (action : Action Token) (s : AuthState) → (step crypto action s).db.jobs ≡ s.db.jobs
  unfolding step register finish_register login refresh
  step-jobs (Action.registers now up fresh body) s =
      elim (Result-cases (check_register crypto body s.db)) [
        | inr (e, refused) ↦ rw (step, register, refused) refl
        | inl (done, passed) ↦
            rw (step, register, passed)
              (elim (Result-cases (create_user crypto fresh body s.db)) [
                | inr (e, taken) ↦ rw (finish_register, taken) refl
                | inl (db, made) ↦
                    rw (finish_register, made)
                      (ap (λ (d : Db). d.jobs)
                          (open_session-db crypto now up fresh.jti (new_user crypto fresh body)
                            (record s { db = db }))
                        ∙ create_user-jobs crypto fresh body s.db made)
              ])
      ]
  step-jobs (Action.logs_in now up jti body) s =
      elim (Result-cases (check_login crypto body s.db)) [
        | inr (e, refused) ↦ rw (step, login, refused) refl
        | inl (user, passed) ↦
            rw (step, login, passed)
              (ap (λ (d : Db). d.jobs) (open_session-db crypto now up jti user s))
      ]
  step-jobs (Action.refreshes now reads deletes stores jti token) s =
      elim (Result-cases (check_refresh crypto now reads token s)) [
        | inr (e, refused) ↦ rw (step, refresh, refused) refl
        | inl ((old, user), passed) ↦
            rw (step, refresh, passed)
              (ap (λ (d : Db). d.jobs) (rotate-db crypto now deletes stores old jti user s))
      ]
  step-jobs (Action.logs_out now up token) s =
      ap (λ (d : Db). d.jobs) (logout-db crypto now up token s)
