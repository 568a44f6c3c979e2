-- ===== src/Auth/Sessions.antt =====
-- api/src/routes/auth.ts: what the routes keep in Redis and send back, and the rows of a new account.
-- Times are seconds.
use chronos_job_scheduler.Prelude.{
  ℕ, ◌+◌, ◌*◌, String, str_eq, Bool, ◌&&◌, Option, none, some, List, [], ◌∷◌, ◌++◌, ◌==◌, ltb,
  if◌then◌else◌, codes, find_first, exists_where, delete_where,
}
use chronos_job_scheduler.Schema.{Db, User, Organization, OrgMembership, owner}

-- The keys `refresh:jti:…` in Redis, each with the time at which it expires.
pub record AuthState : Type 0 where
  pub db : Db
  pub refresh_jtis : List (ℕ × ℕ)

pub record Fresh : Type 0 where
  pub user_id : ℕ
  pub org_id : ℕ
  pub created_at : ℕ
  pub salt : ℕ
  pub jti : ℕ

pub record RegisterBody : Type 0 where
  pub email : String
  pub password : String
  pub org_name : Option String

pub record LoginBody : Type 0 where
  pub email : String
  pub password : String

-- What a successful answer carries: the tokens are also set as cookies.
pub record Session (Token : Type 0) : Type 0 where
  pub user : User
  pub access_token : Token
  pub refresh_token : Token

abbrev pub refresh_ttl_seconds : ℕ
refresh_ttl_seconds = 7 * 24 * 60 * 60

abbrev pub refresh_cookie : String
refresh_cookie = "chronos_refresh"

abbrev pub access_cookie : String
access_cookie = "chronos_access"

-- The name that api/src/index.ts gives to @fastify/jwt.
abbrev pub jwt_cookie : String
jwt_cookie = "refreshToken"

-- `redis.set(key, '1', 'EX', REFRESH_TTL_SECONDS)`
abbrev pub store_refresh_jti : ℕ → ℕ → List (ℕ × ℕ) → List (ℕ × ℕ)
store_refresh_jti now jti jtis =
    (jti, now + refresh_ttl_seconds) ∷ delete_where (λ (e : ℕ × ℕ). e.0 == jti) jtis

abbrev pub is_refresh_jti_valid : ℕ → ℕ → List (ℕ × ℕ) → Bool
is_refresh_jti_valid now jti jtis = exists_where (λ (e : ℕ × ℕ). e.0 == jti && ltb now e.1) jtis

abbrev pub revoke_refresh_jti : ℕ → List (ℕ × ℕ) → List (ℕ × ℕ)
revoke_refresh_jti jti jtis = delete_where (λ (e : ℕ × ℕ). e.0 == jti) jtis

abbrev pub find_user : String → Db → Option User
find_user email db = find_first (λ u. str_eq u.email email) db.users

-- `email.split('@')[0]`
abbrev pub before_at : List ℕ → List ℕ
before_at [] = []
before_at (c ∷ cs) = if c == b'@' then [] else c ∷ before_at cs

-- `orgName ?? …`
abbrev pub org_name_of : RegisterBody → List ℕ
org_name_of body = elim body.org_name [
  | none ↦ before_at (codes body.email) ++ codes "'s Org"
  | some name ↦ codes name
]

abbrev pub new_org : Fresh → RegisterBody → Organization
new_org fresh body = record { id = fresh.org_id; name = org_name_of body; owner_id = fresh.user_id }

abbrev pub new_owner : Fresh → OrgMembership
new_owner fresh = record { org_id = fresh.org_id; user_id = fresh.user_id; role = owner }
