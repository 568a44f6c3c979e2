-- ===== src/Jobs/Body.antt =====
-- api/src/routes/jobs.ts: the request bodies with their schemas, and the helpers on cron expressions.
use chronos_job_scheduler.Prelude.{
  codes, utf16_length, not, ℕ, suc, ◌+◌, ◌*◌, ◌/◌, String, Bool, true, false, ◌&&◌, Option, none,
  some, List, [], ◌∷◌, ◌==◌, leb, if◌then◌else◌,
}
use chronos_job_scheduler.Schema.JsonValue.{Json, object, end}
use chronos_job_scheduler.Pagination.{is_space}

pub record CreateJob : Type 0 where
  pub type : String
  pub payload : Option Json
  pub run_at : Option ℕ
  pub cron_expression : Option String
  pub retry_policy_id : Option ℕ
  pub idempotency_key : Option String
  pub priority : Option ℕ

pub record BatchJob : Type 0 where
  pub type : String
  pub payload : Option Json
  pub run_at : Option ℕ
  pub idempotency_key : Option String
  pub priority : Option ℕ

abbrev pub is_valid_type : String → Bool
is_valid_type s = leb 1 (utf16_length (codes s)) && leb (utf16_length (codes s)) 128

abbrev pub is_valid_key : Option String → Bool
is_valid_key none = true
is_valid_key (some s) = leb (utf16_length (codes s)) 256

abbrev pub is_valid_priority : Option ℕ → Bool
is_valid_priority none = true
is_valid_priority (some n) = leb n 100

-- `createJobSchema`, beyond the types of the fields.
unfoldable pub is_valid_create : CreateJob → Bool
is_valid_create body =
    is_valid_type body.type && is_valid_key body.idempotency_key && is_valid_priority body.priority

-- `batchJobSchema`
unfoldable pub is_valid_item : BatchJob → Bool
is_valid_item item =
    is_valid_type item.type && is_valid_key item.idempotency_key && is_valid_priority item.priority

abbrev pub all_valid : List BatchJob → Bool
all_valid [] = true
all_valid (item ∷ items) = is_valid_item item && all_valid items

abbrev pub count_items : List BatchJob → ℕ
count_items [] = 0
count_items (item ∷ items) = suc (count_items items)

-- `createBatchSchema`
unfoldable pub is_valid_batch : List BatchJob → Bool
is_valid_batch items = leb 1 (count_items items) && leb (count_items items) 500 && all_valid items

-- The runs of other characters between runs of white space; `inside` says that one is going on.
abbrev pub count_fields : Bool → List ℕ → ℕ
count_fields inside [] = 0
count_fields inside (c ∷ cs) =
    (if is_space c then 0 else if inside then 0 else 1) + count_fields (not (is_space c)) cs

-- `expr.trim().split(/\s+/).length === 5`
unfoldable pub is_valid_cron : String → Bool
is_valid_cron expr = count_fields false (codes expr) == 5

-- `computeNextRunAt`: the next full minute, whatever the expression says.
pub next_minute : ℕ → ℕ
next_minute from = (from / 60000 + 1) * 60000

-- `priority ?? 0`, `payload ?? {}`, `runAt ? new Date(runAt) : now`
abbrev pub or_zero : Option ℕ → ℕ
or_zero none = 0
or_zero (some n) = n

abbrev pub or_empty : Option Json → Json
or_empty none = object end
or_empty (some v) = v

abbrev pub or_now : ℕ → Option ℕ → ℕ
or_now now none = now
or_now now (some t) = t
