-- ===== src/Auth/Users.antt =====
-- api/src/routes/auth.ts: what requests leave of the users.
use chronos_job_scheduler.Prelude.{
  find_first-kept, ◌++◌, String, str_eq, ℕ, ◌≡◌, refl, sym, Bool, true, false, Option, none, some,
  Option-cases, List, [], ◌∷◌, inl, inr,
}
use chronos_job_scheduler.Schema.{Db, User}
use chronos_job_scheduler.Errors.{Result-cases, ok}
use chronos_job_scheduler.Auth.{
  AuthState, Fresh, RegisterBody, find_user, new_user, check_register, create_user, finish_register,
  register, check_login, login, check_refresh, open_session, rotate, refresh, logout, revoke_some,
}
use chronos_job_scheduler.Auth.Interface.{Crypto}
use chronos_job_scheduler.Auth.Runs.{Action, step, run}

module _ {Token : Type 0} (crypto : Crypto Token) where
  pub open_session-db :
      (now : ℕ) (up : Bool) (jti : ℕ) (user : User) (s : AuthState)
      → (open_session crypto now up jti user s).1.db ≡ s.db
  unfolding open_session
  open_session-db now true jti user s = refl
  open_session-db now false jti user s = refl

  pub rotate-db :
      (now : ℕ) (deletes stores : Bool) (old jti : ℕ) (user : User) (s : AuthState)
      → (rotate crypto now deletes stores old jti user s).1.db ≡ s.db
  unfolding rotate
  rotate-db now false stores old jti user s = refl
  rotate-db now true stores old jti user s = open_session-db now stores jti user _

  revoke_some-db :
      (up : Bool) (jti : Option ℕ) (s : AuthState) → (revoke_some crypto up jti s).db ≡ s.db
  revoke_some-db up none s = refl
  revoke_some-db true (some jti) s = refl
  revoke_some-db false (some jti) s = refl

  pub logout-db :
      (now : ℕ) (up : Bool) (token : Option Token) (s : AuthState)
      → (logout crypto now up token s).db ≡ s.db
  unfolding logout
  logout-db now up none s = refl
  logout-db now up (some token) s = elim (Option-cases (crypto.verify now token)) [
    | inl invalid ↦ rw (logout, invalid) refl
    | inr (payload, valid) ↦ rw (logout, valid) (revoke_some-db up payload.jti s)
  ]

  pub create_user-jobs :
      (fresh : Fresh) (body : RegisterBody) (db : Db) {db' : Db}
      → create_user crypto fresh body db ≡ ok db'
      → db'.jobs ≡ db.jobs
  unfolding create_user
  create_user-jobs fresh body db {db'} made = elim (Option-cases (find_user body.email db)) [
    | inr (v, taken) ↦ let met = rw (create_user, taken) at made in cc
    | inl free ↦ let added = rw (create_user, free) at made in cc
  ]

  create_user-find_user :
      (email : String) (fresh : Fresh) (body : RegisterBody) (db : Db) {db' : Db} {u : User}
      → create_user crypto fresh body db ≡ ok db'
      → find_user email db ≡ some u
      → find_user email db' ≡ some u
  unfolding create_user
  create_user-find_user email fresh body db {db'} made found =
      elim (Option-cases (find_user body.email db)) [
        | inr (v, taken) ↦ let met = rw (create_user, taken) at made in cc
        | inl free ↦
            let users : db.users ++ new_user crypto fresh body ∷ [] ≡ db'.users =
              let added = rw (create_user, free) at made in cc in
            rw (sym users) (
              find_first-kept (λ v. str_eq v.email email) db.users (new_user crypto fresh body ∷ [])
                found)
      ]

  -- An account stays as it is, whatever requests are made.
  step-find_user :
      (email : String) (action : Action Token) (s : AuthState) {u : User}
      → find_user email s.db ≡ some u
      → find_user email (step crypto action s).db ≡ some u
  unfolding step register finish_register login refresh
  step-find_user email (Action.registers now up fresh body) s h =
      elim (Result-cases (check_register crypto body s.db)) [
        | inr (e, refused) ↦ rw (step, register, refused) h
        | inl (done, passed) ↦
            rw (step, register, passed)
              (elim (Result-cases (create_user crypto fresh body s.db)) [
                | inr (e, taken) ↦ rw (finish_register, taken) h
                | inl (db, made) ↦
                    rw (finish_register, made)
                      (rw
                        (open_session-db now up fresh.jti (new_user crypto fresh body)
                          (record s { db = db }))
                        (create_user-find_user email fresh body s.db made h))
              ])
      ]
  step-find_user email (Action.logs_in now up jti body) s h =
      elim (Result-cases (check_login crypto body s.db)) [
        | inr (e, refused) ↦ rw (step, login, refused) h
        | inl (user, passed) ↦ rw (step, login, passed) (rw (open_session-db now up jti user s) h)
      ]
  step-find_user email (Action.refreshes now reads deletes stores jti token) s h =
      elim (Result-cases (check_refresh crypto now reads token s)) [
        | inr (e, refused) ↦ rw (step, refresh, refused) h
        | inl ((old, user), passed) ↦
            rw (step, refresh, passed) (rw (rotate-db now deletes stores old jti user s) h)
      ]
  step-find_user email (Action.logs_out now up token) s h = rw (logout-db now up token s) h

  pub run-find_user :
      (email : String) (actions : List (Action Token)) (s : AuthState) {u : User}
      → find_user email s.db ≡ some u
      → find_user email (run crypto actions s).db ≡ some u
  unfolding run
  run-find_user email [] s h = h
  run-find_user email (a ∷ actions) s h =
      run-find_user email actions (step crypto a s) (step-find_user email a s h)
