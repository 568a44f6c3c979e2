-- ===== src/Errors.antt =====
-- api/src/lib/errors.ts and the error handler of api/src/index.ts. Message texts and `details` are
-- left out: what a client's code reads is the status and the code.
use chronos_job_scheduler.Prelude.{
  ◌≡◌, refl, ◌⊎◌, inl, inr, Bool, true, false, Option, none, some, ℕ, String,
}

pub data ApiError : Type 0 where
  not_found unauthorized forbidden conflict validation_error bad_request : ApiError
  rate_limited : ℕ → ApiError

-- What reaches the error handler: an error of the domain, one of Fastify's validation, a violated
-- unique constraint of Prisma (P2002), or anything else.
pub data Thrown : Type 0 where
  chronos_error : ApiError → Thrown
  fastify_validation unique_violation unexpected : Thrown

pub record HttpError : Type 0 where
  pub status : ℕ
  pub code : String

pub status_code : ApiError → ℕ
status_code not_found = 404
status_code unauthorized = 401
status_code forbidden = 403
status_code conflict = 409
status_code validation_error = 400
status_code (rate_limited retry_after) = 429
status_code bad_request = 400

pub error_code : ApiError → String
error_code not_found = "NOT_FOUND"
error_code unauthorized = "UNAUTHORIZED"
error_code forbidden = "FORBIDDEN"
error_code conflict = "CONFLICT"
error_code validation_error = "VALIDATION_ERROR"
error_code (rate_limited retry_after) = "RATE_LIMITED"
error_code bad_request = "BAD_REQUEST"

pub handle_error : Thrown → HttpError
unfolding status_code error_code
handle_error (chronos_error e) = record { status = status_code e; code = error_code e }
handle_error fastify_validation = record { status = 400; code = "VALIDATION_ERROR" }
handle_error unique_violation = record { status = 409; code = "CONFLICT" }
handle_error unexpected = record { status = 500; code = "INTERNAL_ERROR" }

-- A handler's result.
pub data Result {κ} (A : Type κ) : Type κ where
  err : Thrown → Result A
  ok : A → Result A

-- The rest of the handler runs on the value that is there.
infixl 5 ◌>>◌ ◌>>=◌
abbrev pub ◌>>=◌ {κ μ} :
    {A : Type κ} {B : Type μ} (first : Result A) (rest : A → Result B) → Result B
err thrown >>= rest = err thrown
ok value >>= rest = rest value

-- The same after a check, which has no value.
abbrev pub ◌>>◌ {μ} : {B : Type μ} (check : Result (Unit {0})) (rest : Result B) → Result B
check >> rest = check >>= λ done. rest

-- `if (!passed) throw …`
abbrev pub guard : Bool → Thrown → Result (Unit {0})
guard true e = ok tt
guard false e = err e

-- `if (!row) throw …`
abbrev pub or_fail {ℓ} : {A : Type ℓ} → Option A → Thrown → Result A
or_fail none e = err e
or_fail (some a) e = ok a

-- Equations are kept in either case.
pub Result-cases {ℓ} :
    {A : Type ℓ} (r : Result A) → ((a : A) × (r ≡ ok a)) ⊎ ((e : Thrown) × (r ≡ err e))
Result-cases (ok a) = inl (a, refl)
Result-cases (err e) = inr (e, refl)
