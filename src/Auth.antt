-- ===== src/Auth.antt =====
-- api/src/routes/auth.ts and api/src/middleware/auth.ts: registering, logging in and out, exchanging
-- refresh tokens, and `requireAuth`. A handler returns its result with the state it leaves, since some
-- fail after a change. Whether Redis answers is an argument of each request. What the database, bcrypt and
-- nanoid make up comes as `Fresh`. Times are seconds.
pub mod Interface
pub mod Sessions
pub mod Runs
pub mod Users
pub mod Kept
pub mod Revocation
pub mod Tokens
pub mod Accounts
pub mod Ownership
mod Tests
use chronos_job_scheduler.Prelude.{
  ℕ, Bool, true, false, not, ◌&&◌, ◌||◌, Option, none, some, [], ◌∷◌, ◌++◌, leb, if◌then◌else◌,
  codes, utf16_length, find_unique,
}
use chronos_job_scheduler.Schema.{Db, User, UserRole}
use chronos_job_scheduler.Errors.{
  Result, ok, err, ◌>>=◌, ◌>>◌, guard, or_fail, chronos_error, unexpected, unique_violation,
  unauthorized, conflict, validation_error,
}
pub use Sessions.{
  AuthState, Fresh, RegisterBody, LoginBody, Session, refresh_ttl_seconds, refresh_cookie,
  access_cookie, jwt_cookie, store_refresh_jti, is_refresh_jti_valid, revoke_refresh_jti, find_user,
  before_at, org_name_of, new_org, new_owner,
}
use Interface.{Crypto, JwtPayload, TokenType, Request, cookie}

abbrev pub is_access : TokenType → Bool
is_access TokenType.access = true
is_access TokenType.refresh = false

-- `if (!token)`
abbrev pub is_none : {A : Type 0} → Option A → Bool
is_none none = true
is_none (some a) = false

module _ {Token : Type 0} (crypto : Crypto Token) where
  -- `issueTokens`
  abbrev pub issue_tokens : ℕ → ℕ → User → Session Token
  issue_tokens now jti user =
      let payload : TokenType → Option ℕ → JwtPayload = λ type jti. record {
        sub = user.id;
        email = user.email;
        role = user.role;
        type = type;
        jti = jti;
      } in
      record {
        user = user;
        access_token = crypto.sign now crypto.access_ttl (payload TokenType.access none);
        refresh_token = crypto.sign now crypto.refresh_ttl (payload TokenType.refresh (some jti));
      }

  -- The end of each handler that logs in: the identifier is stored, then the tokens are sent.
  pub open_session : ℕ → Bool → ℕ → User → AuthState → Result (Session Token) × AuthState
  open_session now up jti user s =
      if up
      then (
        ok (issue_tokens now jti user),
        record s { refresh_jtis = store_refresh_jti now jti s.refresh_jtis },
      )
      else (err unexpected, s)

  abbrev pub is_valid_register : RegisterBody → Bool
  is_valid_register body = crypto.is_email body.email && leb 8 (utf16_length (codes body.password))

  abbrev pub new_user : Fresh → RegisterBody → User
  new_user fresh body = record {
    id = fresh.user_id;
    email = body.email;
    password_hash = crypto.hash fresh.salt body.password;
    role = UserRole.member;
    created_at = fresh.created_at;
  }

  -- What is checked before the password is hashed.
  pub check_register : RegisterBody → Db → Result (Unit {0})
  check_register body db = do
    guard (is_valid_register body) (chronos_error validation_error)
    guard (is_none (find_user body.email db)) (chronos_error conflict)

  -- The transaction: the user, the organization and the membership, or nothing where the unique index
  -- on the e-mail address forbids the user.
  pub create_user : Fresh → RegisterBody → Db → Result Db
  create_user fresh body db = do
    guard (is_none (find_user body.email db)) unique_violation
    ok (record db {
      users = db.users ++ new_user fresh body ∷ [];
      organizations = db.organizations ++ new_org fresh body ∷ [];
      memberships = db.memberships ++ new_owner fresh ∷ [];
    })

  -- From the transaction on.
  pub finish_register :
      ℕ → Bool → Fresh → RegisterBody → AuthState → Result (Session Token) × AuthState
  unfolding create_user open_session
  finish_register now up fresh body s = elim (create_user fresh body s.db) [
    | err e ↦ (err e, s)
    | ok db ↦ open_session now up fresh.jti (new_user fresh body) (record s { db = db })
  ]

  -- POST /auth/register
  pub register : ℕ → Bool → Fresh → RegisterBody → AuthState → Result (Session Token) × AuthState
  unfolding check_register finish_register
  register now up fresh body s = elim (check_register body s.db) [
    | err e ↦ (err e, s)
    | ok done ↦ finish_register now up fresh body s
  ]

  -- The user whom the e-mail address and the password belong to.
  pub check_login : LoginBody → Db → Result User
  check_login body db = do
    guard (crypto.is_email body.email && leb 1 (utf16_length (codes body.password)))
        (chronos_error validation_error)
    user ← or_fail (find_user body.email db) (chronos_error unauthorized)
    guard (crypto.compare body.password user.password_hash) (chronos_error unauthorized)
    ok user

  -- POST /auth/login
  pub login : ℕ → Bool → ℕ → LoginBody → AuthState → Result (Session Token) × AuthState
  unfolding check_login open_session
  login now up jti body s = elim (check_login body s.db) [
    | err e ↦ (err e, s)
    | ok user ↦ open_session now up jti user s
  ]

  -- `redis.get` throws where Redis does not answer.
  abbrev pub read_jti : ℕ → Bool → ℕ → AuthState → Result Bool
  read_jti now up jti s =
      if up then ok (is_refresh_jti_valid now jti s.refresh_jtis) else err unexpected

  -- What POST /auth/refresh only reads: the token's identifier, and the user.
  pub check_refresh : ℕ → Bool → Option Token → AuthState → Result (ℕ × User)
  check_refresh now up token s = do
    refresh_token ← or_fail token (chronos_error unauthorized)
    payload ← or_fail (crypto.verify now refresh_token) (chronos_error unauthorized)
    guard (not (is_access payload.type)) (chronos_error unauthorized)
    jti ← or_fail payload.jti (chronos_error unauthorized)
    valid ← read_jti now up jti s
    guard valid (chronos_error unauthorized)
    user ←
        or_fail (find_unique (λ (u : User). u.id) payload.sub s.db.users)
          (chronos_error unauthorized)
    ok (jti, user)

  -- The rotation; the old identifier is gone even if Redis does not take the new one.
  pub rotate : ℕ → Bool → Bool → ℕ → ℕ → User → AuthState → Result (Session Token) × AuthState
  unfolding open_session
  rotate now deletes stores old_jti new_jti user s =
      if deletes
      then open_session now stores new_jti user
          (record s { refresh_jtis = revoke_refresh_jti old_jti s.refresh_jtis })
      else (err unexpected, s)

  -- POST /auth/refresh; whether Redis reads, deletes and stores is told apart.
  pub refresh :
      ℕ → Bool → Bool → Bool → ℕ → Option Token → AuthState → Result (Session Token) × AuthState
  unfolding check_refresh rotate
  refresh now reads deletes stores jti token s = elim (check_refresh now reads token s) [
    | err e ↦ (err e, s)
    | ok (old_jti, user) ↦ rotate now deletes stores old_jti jti user s
  ]

  abbrev pub revoke_some : Bool → Option ℕ → AuthState → AuthState
  revoke_some up none s = s
  revoke_some up (some jti) s =
      if up then record s { refresh_jtis = revoke_refresh_jti jti s.refresh_jtis } else s

  -- POST /auth/logout, which never fails: the cookies are cleared in any case.
  pub logout : ℕ → Bool → Option Token → AuthState → AuthState
  logout now up none s = s
  logout now up (some token) s = elim (crypto.verify now token) [
    | none ↦ s
    | some payload ↦ revoke_some up payload.jti s
  ]

  -- Some token: of the header, else of the cookie `accessToken`.
  abbrev pub has_token : Request Token → Bool
  has_token request =
      not (is_none request.bearer) || not (is_none (cookie "accessToken" request.cookies))

  -- `requireAuth`
  pub require_auth : ℕ → Request Token → Result JwtPayload
  require_auth now request = do
    guard (has_token request) (chronos_error unauthorized)
    payload ← or_fail (crypto.verify_request jwt_cookie now request) (chronos_error unauthorized)
    guard (is_access payload.type) (chronos_error unauthorized)
    ok payload
