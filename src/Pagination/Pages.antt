-- ===== src/Pagination/Pages.antt =====
-- api/src/lib/pagination.ts: the ranges of `parsePagination`, and the pages of a list.
use native.Mathlib.Nat.{mod-lt, div-add-mod, mul-le-mul_right}
use chronos_job_scheduler.Prelude.{
  ℕ, zero, suc, ◌+◌, ◌-◌, ◌*◌, ◌/◌, ◌≤◌, ◌<◌, ◌≡◌, refl, ap, ◌∙◌, ◌↔◌, Option, none, some, List,
  arith,
}
use chronos_job_scheduler.Pagination.{at_least_one, parse_pagination, build_meta}

at_least_one_pos : (fallback : ℕ) (text : Option (List ℕ)) → 1 ≤ at_least_one fallback text
unfolding at_least_one
at_least_one_pos fallback none = omega arith
at_least_one_pos fallback (some cs) = ground arith

-- Whatever the query says, the page is at least 1, the limit between 1 and 100, and the rows that
-- are skipped are those of the pages before.
pub parse_pagination_range :
    (page_text limit_text : Option (List ℕ))
    → let p = parse_pagination page_text limit_text in
      (1 ≤ p.page) × (1 ≤ p.limit) × (p.limit ≤ 100) × (p.skip ≡ (p.page - 1) * p.limit)
unfolding parse_pagination
parse_pagination_range page_text limit_text =
    (at_least_one_pos 1 page_text, omega (arith, at_least_one_pos 20 limit_text), omega arith, refl)

pages :
    (page limit skip total : ℕ)
    → (1 ≤ page) × (1 ≤ limit) × (limit ≤ 100) × (skip ≡ (page - 1) * limit)
    → (page ≤ (total + (limit - 1)) / limit) ↔ (skip < total)
pages zero limit skip total h = elim h.0 [ ]
pages (suc k) limit skip total h =
    let start : skip ≡ k * limit = h.3 ∙ ap (λ (t : ℕ). t * limit) (omega arith) in
    let n = total + (limit - 1) in
    let split = div-add-mod n limit in
    let below = mod-lt n h.1 in
    (
      λ le. omega (arith, start, split, below, mul-le-mul_right limit le),
      λ lt. grind (arith, start, split, below, mul-le-mul_right {m = n / limit} {n = k} limit),
    )

-- For every query and every number of rows, the page lies among the `totalPages` of its `meta`
-- exactly if the rows that it skips leave some over.
pub page_shows_rows :
    (page_text limit_text : Option (List ℕ)) (total : ℕ)
    → let p = parse_pagination page_text limit_text in
      (p.page ≤ (build_meta total p.page p.limit).total_pages) ↔ (p.skip < total)
unfolding build_meta
page_shows_rows page_text limit_text total =
    let p = parse_pagination page_text limit_text in
    pages p.page p.limit p.skip total (parse_pagination_range page_text limit_text)
