-- ===== src/Auth/Runs.antt =====
-- api/src/routes/auth.ts: sequences of requests, and refresh tokens that Redis no longer knows.
use chronos_job_scheduler.Prelude.{
  ℕ, ◌≡◌, refl, Bool, true, false, Option, none, some, Option-cases, List, [], ◌∷◌, ◌==◌, All,
  arith, exists_where, delete_where, inl, inr,
}
use chronos_job_scheduler.Schema.{User}
use chronos_job_scheduler.Errors.{Result-cases}
use chronos_job_scheduler.Auth.{
  new_user, revoke_some, AuthState, Fresh, RegisterBody, LoginBody, open_session, check_register,
  create_user, finish_register, register, check_login, login, check_refresh, rotate, refresh,
  logout,
}
use chronos_job_scheduler.Auth.Interface.{Crypto}

-- A request to one of the routes, with its time and the answers of Redis.
pub data Action (Token : Type 0) : Type 0 where
  registers : ℕ → Bool → Fresh → RegisterBody → Action Token
  logs_in : ℕ → Bool → ℕ → LoginBody → Action Token
  refreshes : ℕ → Bool → Bool → Bool → ℕ → Option Token → Action Token
  logs_out : ℕ → Bool → Option Token → Action Token

-- The identifier, if any, that a request may store.
abbrev pub new_jti : {Token : Type 0} → Action Token → Option ℕ
new_jti (Action.registers now up fresh body) = some fresh.jti
new_jti (Action.logs_in now up jti body) = some jti
new_jti (Action.refreshes now reads deletes stores jti token) = some jti
new_jti (Action.logs_out now up token) = none

abbrev pub is_jti : ℕ → Option ℕ → Bool
is_jti jti none = false
is_jti jti (some other) = other == jti

-- Redis has no key for the identifier, expired or not.
abbrev pub IsRevoked : ℕ → AuthState → Type 0
IsRevoked jti s = exists_where (λ (e : ℕ × ℕ). e.0 == jti) s.refresh_jtis ≡ false

module _ {Token : Type 0} (crypto : Crypto Token) where
  unfoldable pub step : Action Token → AuthState → AuthState
  step (Action.registers now up fresh body) s = (register crypto now up fresh body s).1
  step (Action.logs_in now up jti body) s = (login crypto now up jti body s).1
  step (Action.refreshes now reads deletes stores jti token) s =
      (refresh crypto now reads deletes stores jti token s).1
  step (Action.logs_out now up token) s = logout crypto now up token s

  unfoldable pub run : List (Action Token) → AuthState → AuthState
  unfolding step
  run [] s = s
  run (action ∷ actions) s = run actions (step action s)

delete-absent :
    (jti other : ℕ) (jtis : List (ℕ × ℕ))
    → exists_where (λ (e : ℕ × ℕ). e.0 == jti) jtis ≡ false
    → exists_where (λ (e : ℕ × ℕ). e.0 == jti) (delete_where (λ (e : ℕ × ℕ). e.0 == other) jtis)
      ≡ false
delete-absent jti other [] h = refl
delete-absent jti other (e ∷ es) h = ground (arith, delete-absent jti other es)

module _ {Token : Type 0} (crypto : Crypto Token) (j : ℕ) where
  pub open_session-IsRevoked :
      (now : ℕ) (up : Bool) (jti : ℕ) (user : User) (s : AuthState)
      → (jti == j) ≡ false
      → IsRevoked j s
      → IsRevoked j (open_session crypto now up jti user s).1
  unfolding open_session
  open_session-IsRevoked now true jti user s new h = rw new (delete-absent j jti s.refresh_jtis h)
  open_session-IsRevoked now false jti user s new h = h

  rotate-IsRevoked :
      (now : ℕ) (deletes stores : Bool) (old jti : ℕ) (user : User) (s : AuthState)
      → (jti == j) ≡ false
      → IsRevoked j s
      → IsRevoked j (rotate crypto now deletes stores old jti user s).1
  unfolding rotate
  rotate-IsRevoked now false stores old jti user s new h = h
  rotate-IsRevoked now true stores old jti user s new h =
      open_session-IsRevoked now stores jti user _ new (delete-absent j old s.refresh_jtis h)

  revoke_some-IsRevoked :
      (up : Bool) (jti : Option ℕ) (s : AuthState)
      → IsRevoked j s
      → IsRevoked j (revoke_some crypto up jti s)
  revoke_some-IsRevoked up none s h = h
  revoke_some-IsRevoked true (some jti) s h = delete-absent j jti s.refresh_jtis h
  revoke_some-IsRevoked false (some jti) s h = h

  logout-IsRevoked :
      (now : ℕ) (up : Bool) (token : Option Token) (s : AuthState)
      → IsRevoked j s
      → IsRevoked j (logout crypto now up token s)
  unfolding logout
  logout-IsRevoked now up none s h = h
  logout-IsRevoked now up (some token) s h = elim (Option-cases (crypto.verify now token)) [
    | inl invalid ↦ rw (logout, invalid) h
    | inr (payload, valid) ↦ rw (logout, valid) (revoke_some-IsRevoked up payload.jti s h)
  ]

  step-IsRevoked :
      (action : Action Token) (s : AuthState)
      → is_jti j (new_jti action) ≡ false
      → IsRevoked j s
      → IsRevoked j (step crypto action s)
  unfolding step register finish_register login refresh rotate logout
  step-IsRevoked (Action.registers now up fresh body) s new h =
      elim (Result-cases (check_register crypto body s.db)) [
        | inr (e, refused) ↦ rw (step, register, refused) h
        | inl (done, passed) ↦
            rw (step, register, passed)
              (elim (Result-cases (create_user crypto fresh body s.db)) [
                | inr (e, taken) ↦ rw (finish_register, taken) h
                | inl (db, made) ↦
                    rw (finish_register, made)
                      (open_session-IsRevoked now up fresh.jti (new_user crypto fresh body)
                        (record s { db = db }) new h)
              ])
      ]
  step-IsRevoked (Action.logs_in now up jti body) s new h =
      elim (Result-cases (check_login crypto body s.db)) [
        | inr (e, refused) ↦ rw (step, login, refused) h
        | inl (user, passed) ↦
            rw (step, login, passed) (open_session-IsRevoked now up jti user s new h)
      ]
  step-IsRevoked (Action.refreshes now reads deletes stores jti token) s new h =
      elim (Result-cases (check_refresh crypto now reads token s)) [
        | inr (e, refused) ↦ rw (step, refresh, refused) h
        | inl ((old, user), passed) ↦
            rw (step, refresh, passed) (rotate-IsRevoked now deletes stores old jti user s new h)
      ]
  step-IsRevoked (Action.logs_out now up token) s new h = logout-IsRevoked now up token s h

  pub run-IsRevoked :
      (actions : List (Action Token)) (s : AuthState)
      → All (λ a. is_jti j (new_jti a) ≡ false) actions
      → IsRevoked j s
      → IsRevoked j (run crypto actions s)
  unfolding run
  run-IsRevoked [] s new h = h
  run-IsRevoked (a ∷ actions) s new h =
      run-IsRevoked actions (step crypto a s) new.1 (step-IsRevoked a s new.0 h)
