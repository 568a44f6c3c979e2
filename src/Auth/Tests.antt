-- ===== src/Auth/Tests.antt =====
-- api/src/routes/auth.ts: tests, and the theorems at one user, with a token that is its payload and the time
-- at which it expires.
use chronos_job_scheduler.Prelude.{
  ℕ, ◌+◌, ◌≡◌, ◌⊎◌, refl, arith, String, str_eq, eq_iff, true, false, ltb, Option, none, some, List,
  [], ◌∷◌, if◌then◌else◌, count_where,
}
use chronos_job_scheduler.Schema.{User, UserRole}
use chronos_job_scheduler.Errors.{ok, err, chronos_error, unauthorized}
use chronos_job_scheduler.Samples.{empty_db}
use chronos_job_scheduler.Scope.Members.{is_ok}
use chronos_job_scheduler.Auth.{
  AuthState, Fresh, RegisterBody, LoginBody, Session, issue_tokens, open_session, create_user,
  check_register, finish_register, register, login, check_refresh, rotate, refresh, logout,
  require_auth,
}
use chronos_job_scheduler.Auth.Interface.{
  JwtPayload, TokenType, Request, Crypto, Laws, cookie, verify_some,
}
use chronos_job_scheduler.Auth.Runs.{Action, run, step}
use chronos_job_scheduler.Auth.Revocation.{token_of, refresh-refresh, refresh-logout}
use chronos_job_scheduler.Auth.Tokens.{require_auth-cookies}
use chronos_job_scheduler.Auth.Accounts.{login-register}
use chronos_job_scheduler.Auth.Ownership.{IsSound, run-IsSound}

abbrev Token : Type 0
Token = JwtPayload × ℕ

abbrev opened : ℕ → Token → Option JwtPayload
opened now (payload, expiry) = if ltb now expiry then some payload else none

abbrev opened_some : ℕ → Option Token → Option JwtPayload
opened_some now none = none
opened_some now (some t) = opened now t

abbrev opened_request : String → ℕ → Request Token → Option JwtPayload
opened_request name now request = elim request.bearer [
  | none ↦ opened_some now (cookie name request.cookies)
  | some t ↦ opened now t
]

abbrev crypto : Crypto Token
crypto = record {
  access_ttl = 900;
  refresh_ttl = 604800;
  is_email = λ s. true;
  hash = λ salt password. password;
  compare = λ password hash. str_eq password hash;
  sign = λ issued ttl payload. (payload, issued + ttl);
  verify = opened;
  verify_request = opened_request;
}

cookie_read : (now : ℕ) (t : Option Token) → opened_some now t ≡ verify_some crypto now t
cookie_read now none = refl
cookie_read now (some t) = refl

laws : Laws crypto
laws = record {
  compare_hash = λ salt password. (eq_iff password password).1 refl;
  verify_sign = λ issued ttl now payload a b. ground arith;
  verify_expired = λ issued ttl now payload a. ground arith;
  verify_bearer = λ name now token cookies. refl;
  verify_cookie = λ name now cookies. cookie_read now (cookie name cookies);
}

abbrev fresh : Fresh
fresh = record { user_id = 1; org_id = 2; created_at = 0; salt = 0; jti = 10 }

abbrev body : RegisterBody
body = record { email = "a@b.c"; password = "long enough"; org_name = none }

abbrev empty : AuthState
empty = record { db = empty_db; refresh_jtis = [] }

registered : (t : Session Token) × ((register crypto 100 true fresh body empty).0 ≡ ok t)
unfolding register check_register finish_register create_user open_session
registered = (_, refl)

abbrev user : User
user = record {
  id = 1;
  email = "a@b.c";
  password_hash = "long enough";
  role = UserRole.member;
  created_at = 0;
}

abbrev known : AuthState
known = record { db = record empty_db { users = user ∷ [] }; refresh_jtis = (10, 604900) ∷ [] }

abbrev wrong : LoginBody
wrong = record { email = "a@b.c"; password = "guess" }

exchanged :
    is_ok (refresh crypto 200 true true true 11 (token_of crypto 100 10 user) known).0 ≡ true
unfolding refresh check_refresh rotate open_session
exchanged = refl

abbrev between : List (Action Token)
between = Action.logs_in 300 true 12 (record { email = "a@b.c"; password = "long enough" }) ∷ []

login-register_example :
    (login crypto 400 true 13
      (record { email = "a@b.c"; password = "long enough" })
      (run crypto between (register crypto 100 true fresh body empty).1)).0
    ≡ ok (issue_tokens crypto 400 13 registered.0.user)
login-register_example = login-register crypto laws 100 400 13 fresh body between empty registered.1

refresh-refresh_example :
    is_ok
      (refresh crypto 400 true true true 13 (token_of crypto 100 10 user) (
        run crypto between
          (refresh crypto 200 true true true 11 (token_of crypto 100 10 user) known).1)).0
    ≡ false
refresh-refresh_example =
    refresh-refresh crypto laws 100 200 400 10 11 13 true true true true true true user between
      known (omega arith) (omega arith) refl (refl, tt) exchanged

refresh-logout_example :
    is_ok
      (refresh crypto 400 true true true 13
        (token_of crypto 100 10 user)
        (run crypto between (logout crypto 200 true (token_of crypto 100 10 user) known))).0
    ≡ false
refresh-logout_example =
    refresh-logout crypto laws 100 200 400 10 13 true true true user between known (omega arith)
      (omega arith) (omega arith) (refl, tt)

-- The cookies that a log-in sets.
abbrev jar : List (String × Token)
jar =
    ("chronos_access", (issue_tokens crypto 100 10 user).access_token)
    ∷ ("chronos_refresh", (issue_tokens crypto 100 10 user).refresh_token)
    ∷ []

refused_cookies :
    require_auth crypto 200 (record { bearer = none; cookies = jar })
    ≡ err (chronos_error unauthorized)
unfolding require_auth
refused_cookies = refl

require_auth-cookies_example :
    (require_auth crypto 200 (record { bearer = none; cookies = jar })
      ≡ err (chronos_error unauthorized))
    ⊎ ((unread token : Token) × (cookie "accessToken" jar ≡ some unread)
        × (cookie "refreshToken" jar ≡ some token)
        × ((payload : JwtPayload) × (crypto.verify 200 token ≡ some payload)
            × (payload.type ≡ TokenType.access)
            × (require_auth crypto 200 (record { bearer = none; cookies = jar }) ≡ ok payload)))
require_auth-cookies_example = require_auth-cookies crypto laws 200 jar

abbrev requests : List (Action Token)
requests = Action.registers 100 true fresh body ∷ Action.registers 101 true fresh body ∷ []

sound : IsSound empty_db
unfolding IsSound
sound = (λ email. omega arith, tt)

run-IsSound_example : IsSound (run crypto requests empty).db
run-IsSound_example = run-IsSound crypto requests empty sound

one_account : count_where (λ (u : User). true) (run crypto requests empty).db.users ≡ 1
unfolding run step register check_register finish_register create_user open_session
one_account = refl
