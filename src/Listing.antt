-- ===== src/Listing.antt =====
-- The pages of a listing, as the routes of api/src/routes cut them: `skip` and `take` on the ordered
-- rows, with `buildMeta` of api/src/lib/pagination.ts on their number.
pub mod Pages
use chronos_job_scheduler.Prelude.{ℕ, suc, ◌+◌, List, [], ◌∷◌, ◌++◌, take, drop, length, map}
use chronos_job_scheduler.Pagination.{ParsedPagination, PaginationMeta, build_meta}

-- `skip`, `take: limit`
abbrev pub page_of {ℓ} : {A : Type ℓ} → ParsedPagination → List A → List A
page_of p rows = take p.limit (drop p.skip rows)

pub record Listing {ℓ} (A : Type ℓ) : Type ℓ where
  pub rows : List A
  pub meta : PaginationMeta

-- A page of the rows, each shown by a function, with the number of all rows.
abbrev pub listing {ℓ κ} :
    {A : Type ℓ} {B : Type κ} → (A → B) → ParsedPagination → List A → Listing B
listing view p all = record {
  rows = map view (page_of p all);
  meta = build_meta (length all) p.page p.limit;
}
