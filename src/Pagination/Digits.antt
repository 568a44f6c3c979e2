-- ===== src/Pagination/Digits.antt =====
-- The numbers in a query: `String(n)` of the JavaScript standard, which the pages of web/app write,
-- against `parseInt`.
use mathlib.Core.List.{concat-ne-nil}
use native.Mathlib.Nat.{mod-lt, div-add-mod}
use chronos_job_scheduler.Prelude.{
  ℕ, zero, suc, ◌+◌, ◌-◌, ◌*◌, ◌/◌, ◌%◌, ◌≤◌, ◌<◌, ◌≡◌, ◌≢◌, refl, ap, ◌∙◌, true, false, List, [],
  ◌∷◌, ◌++◌, All, All-append, arith, ltb, ◌==◌, if◌then◌else◌, Bool-cases, inl, inr, some, min,
}
use chronos_job_scheduler.Pagination.{
  integer, is_digit, is_space, parse_digits, parse_unsigned, parse_signed, parse_int, at_least_one,
  parse_pagination,
}

-- `String(n)`, with as many steps as are given.
pub digits_within : ℕ → ℕ → List ℕ
digits_within zero n = []
digits_within (suc steps) n =
    let rest = digits_within steps (n / 10) in
    if ltb n 10 then (n + b'0') ∷ [] else rest ++ (n % 10 + b'0') ∷ []

-- One step more than the number is always enough.
pub digits : ℕ → List ℕ
unfolding digits_within
digits n = digits_within (suc n) n

abbrev AreDigits : List ℕ → Type 0
AreDigits = All (λ c. is_digit c ≡ true)

parse_digits-append :
    (acc : ℕ) (xs ys : List ℕ)
    → AreDigits xs
    → parse_digits acc (xs ++ ys) ≡ parse_digits (parse_digits acc xs) ys
unfolding parse_digits
parse_digits-append acc [] ys h = refl
parse_digits-append acc (x ∷ xs) ys h =
    rw h.0 (parse_digits-append (acc * 10 + (x - b'0')) xs ys h.1)

last_digit : (n : ℕ) → is_digit (n % 10 + b'0') ≡ true
last_digit n = ground (arith, mod-lt n {m = 10} (omega arith))

digits_within-AreDigits : (steps n : ℕ) → AreDigits (digits_within steps n)
unfolding digits_within
digits_within-AreDigits zero n = tt
digits_within-AreDigits (suc steps) n = elim (Bool-cases (ltb n 10)) [
  | inl small ↦ rw small (ground arith, tt)
  | inr large ↦ rw large (
      All-append (λ c. is_digit c ≡ true) _ _ (digits_within-AreDigits steps (n / 10))
        (last_digit n, tt))
]

parse_digits-digits_within : (steps n : ℕ) → n < steps → parse_digits 0 (digits_within steps n) ≡ n
unfolding parse_digits digits_within
parse_digits-digits_within zero n h = elim h [ ]
parse_digits-digits_within (suc steps) n h = elim (Bool-cases (ltb n 10)) [
  | inl small ↦ rw small (ground arith)
  | inr large ↦
      let tens = digits_within steps (n / 10) in
      let fewer : n / 10 < steps = ground (arith, h) in
      let left = parse_digits-digits_within steps (n / 10) fewer in
      rw large (
        parse_digits-append 0 tens ((n % 10 + b'0') ∷ []) (digits_within-AreDigits steps (n / 10))
        ∙ rw (left, last_digit n) (omega (arith, div-add-mod n 10)))
]

-- A text of digits, of which there is one, is read as the number that they write.
parse_int-AreDigits :
    (cs : List ℕ) → AreDigits cs → cs ≢ [] → parse_int cs ≡ integer (parse_digits 0 cs)
unfolding parse_int parse_signed parse_unsigned
parse_int-AreDigits [] h some_digit = elim (some_digit refl) [ ]
parse_int-AreDigits (c ∷ cs) h some_digit =
    let digit = h.0 in
    let plain : is_space c ≡ false = ground (arith, digit) in
    let unsigned : (c == b'-') ≡ false = ground (arith, digit) in
    let unmarked : (c == b'+') ≡ false = ground (arith, digit) in
    rw (plain, unsigned, unmarked, digit) refl

digits-ne-nil : (n : ℕ) → digits n ≢ []
unfolding digits digits_within
digits-ne-nil n = elim (Bool-cases (ltb n 10)) [
  | inl small ↦ rw small (λ e. cc)
  | inr large ↦ rw large (concat-ne-nil _ _)
]

-- `parseInt(String(n), 10)` is `n`, for every natural number.
pub parse_int-digits : (n : ℕ) → parse_int (digits n) ≡ integer n
unfolding digits
parse_int-digits n =
    parse_int-AreDigits (digits n) (digits_within-AreDigits (suc n) n) (digits-ne-nil n)
    ∙ ap integer (parse_digits-digits_within (suc n) n (omega arith))

at_least_one-digits : (fallback n : ℕ) → 1 ≤ n → at_least_one fallback (some (digits n)) ≡ n
unfolding at_least_one
at_least_one-digits fallback n h = rw (at_least_one, parse_int-digits n) (ground (arith, h))

-- A query with the page and the limit that a client writes in decimal asks for them: the page, if it is not 0, and the
-- limit, if it is from 1 to 100.
pub parse_pagination-digits :
    (page limit : ℕ)
    → 1 ≤ page
    → 1 ≤ limit
    → limit ≤ 100
    → parse_pagination (some (digits page)) (some (digits limit))
      ≡ record { page = page; limit = limit; skip = (page - 1) * limit }
unfolding parse_pagination
parse_pagination-digits page limit first some_row few =
    let kept : min 100 limit ≡ limit = omega (arith, few) in
    simp (at_least_one-digits 1 page first, at_least_one-digits 20 limit some_row, kept)
