-- ===== src/Listing/Pages.antt =====
-- The pages of a listing taken together.
use native.Mathlib.Nat.{mod-lt, div-add-mod, zero-add, suc-add, zero-mul}
use chronos_job_scheduler.Prelude.{
  length-map, some, ℕ, zero, suc, ◌+◌, ◌-◌, ◌*◌, ◌/◌, ◌≤◌, ◌≡◌, refl, sym, ap, ◌∙◌, List, [], ◌∷◌,
  ◌++◌, take, drop, length, map, arith,
}
use chronos_job_scheduler.Pagination.{parse_pagination, build_meta}
use chronos_job_scheduler.Pagination.Digits.{digits, parse_pagination-digits}
use chronos_job_scheduler.Listing.{listing}

-- What the first pages show, one after the other; `page` lists them by their number.
abbrev pub pages_up_to {ℓ} : {A : Type ℓ} → (ℕ → List A) → ℕ → List A
pages_up_to page zero = []
pages_up_to page (suc n) = pages_up_to page n ++ page (suc n)

module _ {ℓ} {A : Type ℓ} where
  take-drop : (m n : ℕ) (xs : List A) → take m xs ++ take n (drop m xs) ≡ take (m + n) xs
  take-drop zero n xs = rw zero-add refl
  take-drop (suc m) zero [] = rw suc-add refl
  take-drop (suc m) (suc n) [] = rw suc-add refl
  take-drop (suc m) n (x ∷ xs) = rw suc-add (ap (λ ys. x ∷ ys) (take-drop m n xs))

  pub take_all : (n : ℕ) (xs : List A) → length xs ≤ n → take n xs ≡ xs
  take_all zero [] h = refl
  take_all zero (x ∷ xs) h = elim h [ ]
  take_all (suc n) [] h = refl
  take_all (suc n) (x ∷ xs) h = ap (λ ys. x ∷ ys) (take_all n xs (omega (arith, h)))

  -- Pages of `limit` rows that start where the pages before end.
  pages_up_to-take :
      (page : ℕ → List A) (limit : ℕ) (xs : List A)
      → ((k : ℕ) → page (suc k) ≡ take limit (drop (k * limit) xs))
      → (n : ℕ) → pages_up_to page n ≡ take (n * limit) xs
  pages_up_to-take page limit xs each zero = rw zero-mul refl
  pages_up_to-take page limit xs each (suc n) =
      let before = pages_up_to-take page limit xs each n in
      rw (before, each n) (take-drop (n * limit) limit xs ∙ ap (λ m. take m xs) (omega arith))

ceil_covers : (total limit : ℕ) → 1 ≤ limit → total ≤ (total + (limit - 1)) / limit * limit
ceil_covers total limit h =
    let n = total + (limit - 1) in omega (arith, div-add-mod n limit, mod-lt n h)

-- The pages that `meta` counts show all rows, in order and once each.
pub pages_cover {ℓ} :
    {A : Type ℓ} (page : ℕ → List A) (limit : ℕ) (xs : List A)
    → 1 ≤ limit
    → ((k : ℕ) → page (suc k) ≡ take limit (drop (k * limit) xs))
    → pages_up_to page ((length xs + (limit - 1)) / limit) ≡ xs
pages_cover page limit xs some_row each =
    pages_up_to-take page limit xs each ((length xs + (limit - 1)) / limit)
    ∙ take_all _ xs (ceil_covers (length xs) limit some_row)

module _ {ℓ κ} {A : Type ℓ} {B : Type κ} (view : A → B) where
  map-take : (n : ℕ) (xs : List A) → map view (take n xs) ≡ take n (map view xs)
  map-take zero xs = refl
  map-take (suc n) [] = refl
  map-take (suc n) (x ∷ xs) = ap (λ ys. view x ∷ ys) (map-take n xs)

  map-drop : (n : ℕ) (xs : List A) → map view (drop n xs) ≡ drop n (map view xs)
  map-drop zero xs = refl
  map-drop (suc n) [] = refl
  map-drop (suc n) (x ∷ xs) = map-drop n xs

-- The rows that a request for a page shows, the page and the limit written in decimal.
abbrev pub requested {ℓ κ} : {A : Type ℓ} {B : Type κ} → (A → B) → List A → ℕ → ℕ → List B
requested view all limit page =
    (listing view (parse_pagination (some (digits page)) (some (digits limit))) all).rows

-- Requests for the pages 1 to `totalPages` show all rows, in order and once each.
pub requested_cover {ℓ κ} :
    {A : Type ℓ} {B : Type κ} (view : A → B) (all : List A) (limit : ℕ)
    → 1 ≤ limit
    → limit ≤ 100
    → pages_up_to (requested view all limit) (build_meta (length all) 1 limit).total_pages
      ≡ map view all
unfolding build_meta
requested_cover view all limit some_row few =
    let each : (k : ℕ)
        → requested view all limit (suc k) ≡ take limit (drop (k * limit) (map view all)) =
      λ k. rw (parse_pagination-digits (suc k) limit (omega arith) some_row few) (
        ap (λ m. map view (take limit (drop (m * limit) all))) (omega arith)
        ∙ map-take view limit (drop (k * limit) all)
        ∙ ap (take limit) (map-drop view (k * limit) all)) in
    rw (sym (length-map view all))
      (pages_cover (requested view all limit) limit (map view all) some_row each)
