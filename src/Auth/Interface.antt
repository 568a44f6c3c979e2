-- ===== src/Auth/Interface.antt =====
-- What api/src/routes/auth.ts and api/src/middleware/auth.ts use of other packages: zod's e-mail test,
-- bcrypt, and the signing and verifying of @fastify/jwt. Times are seconds, as in a token.
use chronos_job_scheduler.Prelude.{
  ℕ, ◌+◌, ◌≤◌, ◌<◌, ◌≡◌, Bool, true, String, str_eq, Option, none, some, List, [], ◌∷◌,
  if◌then◌else◌,
}
use chronos_job_scheduler.Schema.{UserRole}

pub data TokenType : Type 0 where
  access refresh : TokenType

-- `JwtPayload`
pub record JwtPayload : Type 0 where
  pub sub : ℕ
  pub email : String
  pub role : UserRole
  pub type : TokenType
  pub jti : Option ℕ

-- The token of an `Authorization: Bearer` header, and the cookies by their names.
pub record Request (Token : Type 0) : Type 0 where
  pub bearer : Option Token
  pub cookies : List (String × Token)

abbrev pub cookie : {Token : Type 0} → String → List (String × Token) → Option Token
cookie name [] = none
cookie name ((n, t) ∷ cs) = if str_eq n name then some t else cookie name cs

-- The times to live are those of the environment, by default 15 minutes and 7 days. `sign` takes the time and the time to live, `hash` the salt.
pub record Crypto (Token : Type 0) : Type 0 where
  pub access_ttl : ℕ
  pub refresh_ttl : ℕ
  pub is_email : String → Bool
  pub hash : ℕ → String → String
  pub compare : String → String → Bool
  pub sign : ℕ → ℕ → JwtPayload → Token
  pub verify : ℕ → Token → Option JwtPayload
  pub verify_request : String → ℕ → Request Token → Option JwtPayload

abbrev pub verify_some : {Token : Type 0} → Crypto Token → ℕ → Option Token → Option JwtPayload
verify_some crypto now none = none
verify_some crypto now (some t) = crypto.verify now t

-- The documented behaviour: a password matches its hash; a token carries its payload until it
-- expires; a request is verified by its header or, without one, by the cookie of the given name.
pub record Laws {Token : Type 0} (crypto : Crypto Token) : Type 0 where
  pub compare_hash :
      (salt : ℕ) (password : String) → crypto.compare password (crypto.hash salt password) ≡ true
  pub verify_sign :
      (issued ttl now : ℕ) (payload : JwtPayload)
      → issued ≤ now
      → now < issued + ttl
      → crypto.verify now (crypto.sign issued ttl payload) ≡ some payload
  pub verify_expired :
      (issued ttl now : ℕ) (payload : JwtPayload)
      → issued + ttl ≤ now
      → crypto.verify now (crypto.sign issued ttl payload) ≡ none
  pub verify_bearer :
      (name : String) (now : ℕ) (token : Token) (cookies : List (String × Token))
      → crypto.verify_request name now (record { bearer = some token; cookies = cookies })
        ≡ crypto.verify now token
  pub verify_cookie :
      (name : String) (now : ℕ) (cookies : List (String × Token))
      → crypto.verify_request name now (record { bearer = none; cookies = cookies })
        ≡ verify_some crypto now (cookie name cookies)
