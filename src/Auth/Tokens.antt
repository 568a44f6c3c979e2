-- ===== src/Auth/Tokens.antt =====
-- api/src/routes/auth.ts and api/src/middleware/auth.ts: what a token is good for, and for how long.
use chronos_job_scheduler.Prelude.{
  ℕ, ◌+◌, ◌≤◌, ◌<◌, ◌≡◌, refl, true, Bool-cases, none, some, Option-cases, List, ◌⊎◌, inl, inr,
  String, ap, ◌∙◌,
}
use chronos_job_scheduler.Schema.{User}
use chronos_job_scheduler.Errors.{ok, err, chronos_error, unauthorized}
use mathlib.Core.Path.{subst}
use chronos_job_scheduler.Auth.{
  has_token, issue_tokens, is_access, refresh, require_auth, jwt_cookie,
}
use chronos_job_scheduler.Auth.Interface.{Crypto, Laws, JwtPayload, TokenType, Request, cookie}

is_access-eq : (t : TokenType) → is_access t ≡ true → t ≡ TokenType.access
is_access-eq TokenType.access h = refl
is_access-eq TokenType.refresh h = cc

module _ {Token : Type 0} (crypto : Crypto Token) (laws : Laws crypto) where
  -- From when it is issued until its time to live is over, the access token of a session is accepted in
  -- an `Authorization` header, as its user's; the refresh token is refused there, whatever the cookies.
  pub require_auth-issue_tokens :
      (issued jti now later : ℕ) (user : User) (cookies : List (String × Token))
      → issued ≤ now
      → now < issued + crypto.access_ttl
      → issued ≤ later
      → later < issued + crypto.refresh_ttl
      → let session = issue_tokens crypto issued jti user in
        (require_auth crypto now (record { bearer = some session.access_token; cookies = cookies })
          ≡ ok (record {
            sub = user.id;
            email = user.email;
            role = user.role;
            type = TokenType.access;
            jti = none;
          }))
        × (require_auth crypto later
              (record { bearer = some session.refresh_token; cookies = cookies })
            ≡ err (chronos_error unauthorized))
  unfolding require_auth
  require_auth-issue_tokens issued jti now later user cookies a b c d = (
    rw
        (
          laws.verify_bearer jwt_cookie now _ cookies,
          laws.verify_sign issued crypto.access_ttl now _ a b,
        )
        refl,
    rw
        (
          laws.verify_bearer jwt_cookie later _ cookies,
          laws.verify_sign issued crypto.refresh_ttl later _ c d,
        )
        refl,
  )

  -- Without an `Authorization` header a request is unauthorized, or else a cookie `accessToken` comes with
  -- it, a cookie `refreshToken` carries an access token that is valid, and the request is let through with
  -- the payload of the latter.
  pub require_auth-cookies :
      (now : ℕ) (cookies : List (String × Token))
      → let result = require_auth crypto now (record { bearer = none; cookies = cookies }) in
        (result ≡ err (chronos_error unauthorized))
        ⊎ ((unread token : Token) × (cookie "accessToken" cookies ≡ some unread)
            × (cookie "refreshToken" cookies ≡ some token)
            × ((payload : JwtPayload) × (crypto.verify now token ≡ some payload)
                × (payload.type ≡ TokenType.access)
                × (result ≡ ok payload)))
  unfolding require_auth
  require_auth-cookies now cookies =
      let read = laws.verify_cookie jwt_cookie now cookies in
      elim (Option-cases (cookie "accessToken" cookies)) [
        | inl missing ↦ rw (require_auth, missing) (inl refl)
        | inr (unread, present) ↦ elim (Option-cases (cookie jwt_cookie cookies)) [
          | inl missing ↦ rw (require_auth, present, read, missing) (inl refl)
          | inr (token, found) ↦ elim (Option-cases (crypto.verify now token)) [
            | inl invalid ↦ rw (require_auth, present, read, found, invalid) (inl refl)
            | inr (payload, valid) ↦ elim (Bool-cases (is_access payload.type)) [
              | inl access ↦
                  rw (require_auth, present, read, found, valid, access)
                    (inr (
                      unread,
                      token,
                      refl,
                      refl,
                      (payload, valid, is_access-eq payload.type access, refl),
                    ))
              | inr refresh ↦ rw (require_auth, present, read, found, valid, refresh) (inl refl)
            ]
          ]
        ]
      ]

module _ {Token : Type 0} (crypto : Crypto Token) where
  -- Whoever is let through has sent an access token that verifies, and is known by its payload.
  pub require_auth-ok :
      (now : ℕ) (request : Request Token) (payload : JwtPayload)
      → require_auth crypto now request ≡ ok payload
      → (crypto.verify_request jwt_cookie now request ≡ some payload)
        × (is_access payload.type ≡ true)
  unfolding require_auth
  require_auth-ok now request payload h = elim (Bool-cases (has_token crypto request)) [
    | inr missing ↦
        let failed : require_auth crypto now request ≡ err (chronos_error unauthorized) =
          rw missing refl in
        cc
    | inl sent ↦ elim (Option-cases (crypto.verify_request jwt_cookie now request)) [
      | inl invalid ↦
          let failed : require_auth crypto now request ≡ err (chronos_error unauthorized) =
            rw (sent, invalid) refl in
          cc
      | inr (known, valid) ↦ elim (Bool-cases (is_access known.type)) [
        | inr other ↦
            let failed : require_auth crypto now request ≡ err (chronos_error unauthorized) =
              rw (sent, valid, other) refl in
            cc
        | inl access ↦
            let passed : require_auth crypto now request ≡ ok known =
              rw (sent, valid, access) refl in
            let same : known ≡ payload = cc in
            (valid ∙ ap some same, subst (λ p. is_access p.type ≡ true) same access)
      ]
    ]
  ]
