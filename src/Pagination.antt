-- ===== src/Pagination.antt =====
-- api/src/lib/pagination.ts: `parsePagination` and `buildMeta`. A query value is the list of its code
-- points; `parseInt(…, 10)` is that of the JavaScript standard.
pub mod Pages
pub mod Digits
mod Tests
use chronos_job_scheduler.Prelude.{
  ℕ, suc, ◌+◌, ◌-◌, ◌*◌, ◌/◌, min, max, Bool, true, false, ◌&&◌, ◌||◌, Option, none, some, List, [],
  ◌∷◌, leb, ◌==◌, if◌then◌else◌,
}

-- What `parseInt` returns, as far as the code tells apart. `-0` is 0.
pub data Parsed : Type 0 where
  not_a_number negative : Parsed
  integer : ℕ → Parsed

-- White space and line ends of the standard.
abbrev pub is_space : ℕ → Bool
is_space c =
    (leb 9 c && leb c 13)
    || c == 32
    || c == 160
    || c == 0x1680
    || (leb 0x2000 c && leb c 0x200a)
    || c == 0x2028
    || c == 0x2029
    || c == 0x202f
    || c == 0x205f
    || c == 0x3000
    || c == 0xfeff

abbrev pub is_digit : ℕ → Bool
is_digit c = leb b'0' c && leb c b'9'

pub parse_digits : ℕ → List ℕ → ℕ
parse_digits acc [] = acc
parse_digits acc (c ∷ cs) =
    let rest = parse_digits (acc * 10 + (c - b'0')) cs in if is_digit c then rest else acc

-- The digits, of which there has to be one.
pub parse_unsigned : List ℕ → Parsed
unfolding parse_digits
parse_unsigned [] = not_a_number
parse_unsigned (c ∷ cs) = if is_digit c then integer (parse_digits 0 (c ∷ cs)) else not_a_number

abbrev pub negate : Parsed → Parsed
negate (integer n) = if n == 0 then integer 0 else negative
negate p = p

pub parse_signed : List ℕ → Parsed
unfolding parse_unsigned
parse_signed [] = not_a_number
parse_signed (c ∷ cs) =
    if c == b'-'
    then negate (parse_unsigned cs)
    else if c == b'+'
    then parse_unsigned cs
    else parse_unsigned (c ∷ cs)

pub parse_int : List ℕ → Parsed
unfolding parse_signed
parse_int [] = not_a_number
parse_int (c ∷ cs) = let rest = parse_int cs in if is_space c then rest else parse_signed (c ∷ cs)

abbrev pub default_page : ℕ
default_page = 1

abbrev pub default_limit : ℕ
default_limit = 20

abbrev pub max_limit : ℕ
max_limit = 100

-- `Math.max(1, parseInt(String(value ?? fallback), 10) || fallback)`
pub at_least_one : ℕ → Option (List ℕ) → ℕ
unfolding parse_int
at_least_one fallback none = max 1 fallback
at_least_one fallback (some cs) = elim (parse_int cs) [
  | not_a_number ↦ max 1 fallback
  | negative ↦ 1
  | integer n ↦ if n == 0 then max 1 fallback else max 1 n
]

pub record ParsedPagination : Type 0 where
  pub page : ℕ
  pub limit : ℕ
  pub skip : ℕ

pub parse_pagination : Option (List ℕ) → Option (List ℕ) → ParsedPagination
unfolding at_least_one
parse_pagination page_text limit_text =
    let page = at_least_one default_page page_text in
    let limit = min max_limit (at_least_one default_limit limit_text) in
    record { page = page; limit = limit; skip = (page - 1) * limit }

pub record PaginationMeta : Type 0 where
  pub page : ℕ
  pub limit : ℕ
  pub total : ℕ
  pub total_pages : ℕ

-- `Math.ceil(total / limit)`
unfoldable pub build_meta : ℕ → ℕ → ℕ → PaginationMeta
build_meta total page limit = record {
  page = page;
  limit = limit;
  total = total;
  total_pages = (total + (limit - 1)) / limit;
}
