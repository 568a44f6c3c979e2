-- ===== src/Auth/Revocation.antt =====
-- api/src/routes/auth.ts: refresh tokens that were exchanged or given up.
use chronos_job_scheduler.Prelude.{
  exists-delete_where, find_unique, ℕ, ◌+◌, ◌≤◌, ◌<◌, ◌≡◌, refl, Bool, true, false, Bool-cases,
  Option, none, some, Option-cases, List, [], ◌∷◌, ◌==◌, leb, All, arith, exists_where, ◌⊎◌, inl,
  inr, leb→le,
}
use chronos_job_scheduler.Schema.{User}
use chronos_job_scheduler.Errors.{Result-cases, ok}
use chronos_job_scheduler.Scope.Members.{is_ok}
use chronos_job_scheduler.Auth.{
  AuthState, issue_tokens, is_refresh_jti_valid, check_refresh, rotate, refresh, logout,
}
use chronos_job_scheduler.Auth.Interface.{Crypto, Laws, JwtPayload, TokenType}
use chronos_job_scheduler.Auth.Runs.{
  Action, new_jti, is_jti, IsRevoked, run, run-IsRevoked, open_session-IsRevoked,
}

absent-invalid :
    (now jti : ℕ) (jtis : List (ℕ × ℕ))
    → exists_where (λ (e : ℕ × ℕ). e.0 == jti) jtis ≡ false
    → is_refresh_jti_valid now jti jtis ≡ false
absent-invalid now jti [] h = refl
absent-invalid now jti (e ∷ es) h = ground (arith, absent-invalid now jti es)

-- The cookie of the session that a user was given, with its identifier, at a time.
-- The cookie of the session that a user was given, with its identifier, at a time.
abbrev pub token_of : {Token : Type 0} → Crypto Token → ℕ → ℕ → User → Option Token
token_of crypto issued jti user = some (issue_tokens crypto issued jti user).refresh_token

module _ {Token : Type 0} (crypto : Crypto Token) (laws : Laws crypto) where
  -- A signed token either carries its payload or is refused.
  verify-cases :
      (issued ttl now : ℕ) (payload : JwtPayload)
      → issued ≤ now
      → (crypto.verify now (crypto.sign issued ttl payload) ≡ some payload)
        ⊎ (crypto.verify now (crypto.sign issued ttl payload) ≡ none)
  verify-cases issued ttl now payload h = elim (Bool-cases (leb (issued + ttl) now)) [
    | inl e ↦ inr (laws.verify_expired issued ttl now payload (leb→le _ _ e))
    | inr e ↦ inl (laws.verify_sign issued ttl now payload h (ground arith))
  ]

  abbrev refresh_payload : ℕ → User → JwtPayload
  refresh_payload jti user = record {
    sub = user.id;
    email = user.email;
    role = user.role;
    type = TokenType.refresh;
    jti = some jti;
  }

  -- Only a token whose identifier Redis knows is exchanged.
  check_refresh-IsRevoked :
      (issued now jti : ℕ) (reads : Bool) (user : User) (s : AuthState)
      → issued ≤ now
      → IsRevoked jti s
      → is_ok (
          check_refresh crypto now reads
            (some (issue_tokens crypto issued jti user).refresh_token)
            s)
        ≡ false
  unfolding check_refresh
  check_refresh-IsRevoked issued now jti reads user s h revoked =
      elim (verify-cases issued crypto.refresh_ttl now (refresh_payload jti user) h) [
        | inl valid ↦ elim (Bool-cases reads) [
          | inl up ↦ rw (valid, up, absent-invalid now jti s.refresh_jtis revoked) refl
          | inr down ↦ rw (valid, down) refl
        ]
        | inr expired ↦ rw expired refl
      ]

  check_refresh-jti :
      (issued now jti : ℕ) (reads : Bool) (user : User) (s : AuthState) {old : ℕ} {owner : User}
      → issued ≤ now
      → check_refresh crypto now reads (some (issue_tokens crypto issued jti user).refresh_token) s
        ≡ ok (old, owner)
      → old ≡ jti
  unfolding check_refresh
  check_refresh-jti issued now jti reads user s h passed =
      elim (verify-cases issued crypto.refresh_ttl now (refresh_payload jti user) h) [
        | inl valid ↦ ground (
          arith,
          valid,
          Bool-cases reads,
          Bool-cases (is_refresh_jti_valid now jti s.refresh_jtis),
          Option-cases (find_unique (λ (u : User). u.id) user.id s.db.users),
        )
        | inr expired ↦ ground (arith, expired)
      ]

  -- Whatever requests follow a session's end, except ones that are given the same identifier anew, the
  -- session's refresh token is not exchanged any more.
  refused-after :
      (issued later jti new : ℕ) (reads deletes stores : Bool) (user : User)
      (actions : List (Action Token)) (s : AuthState)
      → issued ≤ later
      → All (λ a. is_jti jti (new_jti a) ≡ false) actions
      → IsRevoked jti s
      → is_ok
          (refresh crypto later reads deletes stores new
            (some (issue_tokens crypto issued jti user).refresh_token)
            (run crypto actions s)).0
        ≡ false
  unfolding refresh
  refused-after issued later jti new reads deletes stores user actions s h others revoked =
      let s' = run crypto actions s in
      let gone = run-IsRevoked crypto jti actions s others revoked in
      let token = some (issue_tokens crypto issued jti user).refresh_token in
      elim (Result-cases (check_refresh crypto later reads token s')) [
        | inl (passed, e) ↦
            let refused = check_refresh-IsRevoked issued later jti reads user s' h gone in
            let met : true ≡ false = rw e at refused in cc
        | inr (thrown, e) ↦ rw (refresh, e) refl
      ]

  rotate-IsRevoked :
      (now : ℕ) (deletes stores : Bool) (jti new : ℕ) (owner : User) (s : AuthState)
      → (new == jti) ≡ false
      → is_ok (rotate crypto now deletes stores jti new owner s).0 ≡ true
      → IsRevoked jti (rotate crypto now deletes stores jti new owner s).1
  unfolding rotate
  rotate-IsRevoked now false stores jti new owner s other done = cc
  rotate-IsRevoked now true stores jti new owner s other done =
      open_session-IsRevoked crypto jti now stores new owner _ other
        (exists-delete_where (λ (e : ℕ × ℕ). e.0 == jti) s.refresh_jtis)

  refresh-IsRevoked :
      (issued now jti new : ℕ) (reads deletes stores : Bool) (user : User) (s : AuthState)
      → issued ≤ now
      → (new == jti) ≡ false
      → is_ok (refresh crypto now reads deletes stores new (token_of crypto issued jti user) s).0
        ≡ true
      → IsRevoked jti
          (refresh crypto now reads deletes stores new (token_of crypto issued jti user) s).1
  unfolding refresh
  refresh-IsRevoked issued now jti new reads deletes stores user s h other done =
      elim (Result-cases (check_refresh crypto now reads (token_of crypto issued jti user) s)) [
        | inl ((old, owner), passed) ↦
            let same = check_refresh-jti issued now jti reads user s h passed in
            let opened : is_ok (rotate crypto now deletes stores jti new owner s).0 ≡ true =
              rw (refresh, passed, same) at done in
            rw (refresh, passed, same)
              (rotate-IsRevoked now deletes stores jti new owner s other opened)
        | inr (thrown, e) ↦ let met : false ≡ true = rw (refresh, e) at done in cc
      ]

  logout-IsRevoked :
      (issued now jti : ℕ) (user : User) (s : AuthState)
      → issued ≤ now
      → now < issued + crypto.refresh_ttl
      → IsRevoked jti (logout crypto now true (token_of crypto issued jti user) s)
  unfolding logout
  logout-IsRevoked issued now jti user s h valid =
      rw (logout, laws.verify_sign issued crypto.refresh_ttl now (refresh_payload jti user) h valid)
        (exists-delete_where (λ (e : ℕ × ℕ). e.0 == jti) s.refresh_jtis)

  -- A refresh token that has been exchanged, for a session with another identifier, is not exchanged a
  -- second time, at whatever time since it was issued and whatever requests come between, provided that none of them is
  -- given its identifier anew.
  pub refresh-refresh :
      (issued now later jti new newer : ℕ) (reads deletes stores reads' deletes' stores' : Bool)
      (user : User) (actions : List (Action Token)) (s : AuthState)
      → issued ≤ now
      → issued ≤ later
      → (new == jti) ≡ false
      → All (λ a. is_jti jti (new_jti a) ≡ false) actions
      → is_ok (refresh crypto now reads deletes stores new (token_of crypto issued jti user) s).0
        ≡ true
      → is_ok
          (refresh crypto later reads' deletes' stores' newer (token_of crypto issued jti user) (
            run crypto actions
              (refresh crypto now reads deletes stores new
                (token_of crypto issued jti user)
                s).1)).0
        ≡ false
  refresh-refresh issued now later jti new newer reads deletes stores reads' deletes' stores' user
        actions s a b other others done =
      refused-after issued later jti newer reads' deletes' stores' user actions _ b others
        (refresh-IsRevoked issued now jti new reads deletes stores user s a other done)

  -- After a log-out with a refresh token that is still valid, while Redis answers, the token is not
  -- exchanged any more, at whatever time and whatever requests come between, provided that none of
  -- them is given its identifier anew.
  pub refresh-logout :
      (issued now later jti new : ℕ) (reads deletes stores : Bool) (user : User)
      (actions : List (Action Token)) (s : AuthState)
      → issued ≤ now
      → now < issued + crypto.refresh_ttl
      → issued ≤ later
      → All (λ a. is_jti jti (new_jti a) ≡ false) actions
      → is_ok
          (refresh crypto later reads deletes stores new
            (token_of crypto issued jti user)
            (run crypto actions (logout crypto now true (token_of crypto issued jti user) s))).0
        ≡ false
  refresh-logout issued now later jti new reads deletes stores user actions s a valid b others =
      refused-after issued later jti new reads deletes stores user actions _ b others
        (logout-IsRevoked issued now jti user s a valid)
