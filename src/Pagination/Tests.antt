-- ===== src/Pagination/Tests.antt =====
-- api/src/lib/pagination.ts: tests, and the theorems at `page=3&limit=500`.
use chronos_job_scheduler.Prelude.{ℕ, ◌≡◌, refl, Option, some, List, [], ◌∷◌}
use chronos_job_scheduler.Pagination.{
  parse_pagination, at_least_one, parse_int, parse_signed, parse_unsigned, parse_digits,
}

abbrev three : Option (List ℕ)
three = some (b'3' ∷ [])

abbrev five_hundred : Option (List ℕ)
five_hundred = some (b'5' ∷ b'0' ∷ b'0' ∷ [])

third_page : (parse_pagination three five_hundred).skip ≡ 200
unfolding parse_pagination at_least_one parse_int parse_signed parse_unsigned parse_digits
third_page = refl
