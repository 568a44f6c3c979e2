-- ===== src/Auth/Accounts.antt =====
-- api/src/routes/auth.ts: the accounts that registrations make, and who may log in to them.
use chronos_job_scheduler.Prelude.{
  sym, sym, eq_iff, utf16_length, codes, find_first, ◌++◌, ◌&&◌, String, str_eq, ℕ, ◌≡◌, refl, ap,
  ◌∙◌, Bool, true, false, Bool-cases, none, some, Option-cases, List, [], ◌∷◌, leb, arith, ◌⊎◌, inl,
  inr, find_first-append,
}
use chronos_job_scheduler.Schema.{Db, User}
use chronos_job_scheduler.Errors.{
  Result-cases, ok, err, chronos_error, unauthorized, validation_error, conflict, unexpected,
}
use chronos_job_scheduler.Auth.{
  codes, utf16_length, AuthState, Fresh, RegisterBody, LoginBody, Session, issue_tokens, find_user,
  new_user, check_register, create_user, finish_register, register, check_login, login,
  open_session,
}
use chronos_job_scheduler.Auth.Runs.{Action, run}
use chronos_job_scheduler.Auth.Users.{run-find_user}
use chronos_job_scheduler.Auth.Interface.{Crypto, Laws}

str_eq_self : (t : String) → str_eq t t ≡ true
str_eq_self t = (eq_iff t t).1 refl

find_user-new :
    (u : User) (users : List User)
    → find_first (λ v. str_eq v.email u.email) users ≡ none
    → find_first (λ v. str_eq v.email u.email) (users ++ u ∷ []) ≡ some u
find_user-new u users absent =
    find_first-append (λ v. str_eq v.email u.email) users (u ∷ []) absent
    ∙ rw (str_eq_self u.email) refl

module _ {Token : Type 0} (crypto : Crypto Token) where
  check_register-ok :
      (body : RegisterBody) (db : Db) {done : Unit {0}}
      → check_register crypto body db ≡ ok done
      → (crypto.is_email body.email ≡ true)
        × (leb 8 (utf16_length (codes body.password)) ≡ true)
        × (find_user body.email db ≡ none)
  unfolding check_register
  check_register-ok body db passed = ground (
    arith,
    Bool-cases (crypto.is_email body.email),
    Bool-cases (leb 8 (utf16_length (codes body.password))),
    Option-cases (find_user body.email db),
  )

  -- A registration that passes its checks creates the account.
  create_user-checked :
      (fresh : Fresh) (body : RegisterBody) (db : Db) {done : Unit {0}}
      → check_register crypto body db ≡ ok done
      → (db' : Db) × (create_user crypto fresh body db ≡ ok db')
        × (find_user body.email db' ≡ some (new_user crypto fresh body))
        × (crypto.is_email body.email ≡ true)
        × (leb 1 (utf16_length (codes body.password)) ≡ true)
  unfolding check_register create_user
  create_user-checked fresh body db passed =
      let (email, long, free) = check_register-ok body db passed in
      rw free
        (_, refl, find_user-new (new_user crypto fresh body) db.users free, email, ground arith)

  -- A registration that passes its checks while Redis does not answer is answered with an error, and
  -- yet the account is there: another try with the same body is a conflict.
  pub register-register :
      (now later : ℕ) (up : Bool) (fresh fresher : Fresh) (body : RegisterBody) (s : AuthState)
      {done : Unit {0}}
      → check_register crypto body s.db ≡ ok done
      → let (result, s') = register crypto now false fresh body s in
        (result ≡ err unexpected)
        × ((register crypto later up fresher body s').0 ≡ err (chronos_error conflict))
  unfolding register check_register finish_register open_session
  register-register now later up fresh fresher body s passed =
      let (db, made, found, email, some_char) = create_user-checked fresh body s.db passed in
      let (email', long, free) = check_register-ok body s.db passed in
      rw (register, passed)
        (rw (finish_register, made) (refl, rw (register, check_register, email, long, found) refl))

module _ {Token : Type 0} (crypto : Crypto Token) (laws : Laws crypto) where
  -- The session of a registration is its new user's, who is found from then on.
  register-user :
      (now : ℕ) (fresh : Fresh) (body : RegisterBody) (s : AuthState) {session : Session Token}
      → (register crypto now true fresh body s).0 ≡ ok session
      → (session.user ≡ new_user crypto fresh body)
        × (find_user body.email (register crypto now true fresh body s).1.db
            ≡ some (new_user crypto fresh body))
        × (crypto.is_email body.email ≡ true)
        × (leb 1 (utf16_length (codes body.password)) ≡ true)
  unfolding register finish_register open_session
  register-user now fresh body s {session} done =
      elim (Result-cases (check_register crypto body s.db)) [
        | inl (checked, passed) ↦
            let (db, made, found, email, some_char) =
              create_user-checked crypto fresh body s.db passed in
            let opened : issue_tokens crypto now fresh.jti (new_user crypto fresh body) ≡ session =
              let e : ok (issue_tokens crypto now fresh.jti (new_user crypto fresh body))
                  ≡ ok session =
                rw (finish_register, made) at (rw (register, passed) at done) in
              cc in
            rw (register, passed)
              (rw (finish_register, made)
                (sym (ap (λ (t : Session Token). t.user) opened), found, email, some_char))
        | inr (thrown, refused) ↦ let met = rw (register, refused) at done in cc
      ]

  -- Whoever has registered while Redis answered can log in with the same e-mail address and password
  -- after any further requests to these routes, as long as Redis answers the log-in, and is the same user.
  pub login-register :
      (now later jti : ℕ) (fresh : Fresh) (body : RegisterBody) (actions : List (Action Token))
      (s : AuthState) {session : Session Token}
      → (register crypto now true fresh body s).0 ≡ ok session
      → (login crypto later true jti
          (record { email = body.email; password = body.password })
          (run crypto actions (register crypto now true fresh body s).1)).0
        ≡ ok (issue_tokens crypto later jti session.user)
  unfolding login check_login open_session
  login-register now later jti fresh body actions s {session} done =
      let (same, found, email, some_char) = register-user now fresh body s done in
      let kept =
        run-find_user crypto body.email actions (register crypto now true fresh body s).1 found in
      let right = laws.compare_hash fresh.salt body.password in
      rw (login, check_login, email, some_char, kept, right)
        (ap (λ (u : User). ok (issue_tokens crypto later jti u)) (sym same))

  -- A log-in with a malformed body, with an unknown e-mail address or with a wrong password fails and changes
  -- nothing, with the same answer for the last two; any other goes on to open a session for the user of
  -- the e-mail address, whose password it is.
  pub login-cases :
      (now jti : ℕ) (up : Bool) (body : LoginBody) (s : AuthState)
      → (login crypto now up jti body s ≡ (err (chronos_error validation_error), s))
        ⊎ (((login crypto now up jti body s ≡ (err (chronos_error unauthorized), s))
              × ((find_user body.email s.db ≡ none)
                  ⊎ ((u : User) × (find_user body.email s.db ≡ some u)
                      × (crypto.compare body.password u.password_hash ≡ false))))
            ⊎ ((u : User) × (find_user body.email s.db ≡ some u)
                × (crypto.compare body.password u.password_hash ≡ true)
                × (login crypto now up jti body s ≡ open_session crypto now up jti u s)))
  unfolding login check_login open_session
  login-cases now jti up body s =
      elim (Bool-cases (crypto.is_email body.email && leb 1 (utf16_length (codes body.password)))) [
        | inr malformed ↦ rw (login, check_login, malformed) (inl refl)
        | inl well_formed ↦ elim (Option-cases (find_user body.email s.db)) [
          | inl unknown ↦ rw (login, check_login, well_formed, unknown) (inr (inl (refl, inl refl)))
          | inr (u, found) ↦ elim (Bool-cases (crypto.compare body.password u.password_hash)) [
            | inl right ↦
                rw (login, check_login, well_formed, found, right)
                  (inr (inr (u, refl, right, refl)))
            | inr wrong ↦
                rw (login, check_login, well_formed, found, wrong)
                  (inr (inl (refl, inr (u, refl, wrong))))
          ]
        ]
      ]
