-- ===== src/Jobs/Reads/Ties.antt =====
-- api/src/routes/jobs.ts: the order of the listing, and the rows that it leaves open.
use chronos_job_scheduler.Prelude.{
  ℕ, ◌≡◌, refl, ap, ◌∙◌, Bool, false, ◌&&◌, ◌||◌, List, [], ◌∷◌, All, ltb, leb, ◌==◌, arith,
  IsOrdered, IsRanking, insert_row, order_by, All-order_by, All-map, order_by-IsOrdered,
}
use chronos_job_scheduler.Schema.{Job}
use chronos_job_scheduler.Jobs.Reads.{returned_before}

-- What the three columns ask for.
abbrev pub shown_before : Job → Job → Bool
shown_before a b =
    ltb b.priority a.priority
    || (a.priority == b.priority
        && (ltb a.run_at b.run_at || (a.run_at == b.run_at && leb b.created_at a.created_at)))

-- The three columns leave the order of these rows open.
abbrev pub is_tied : Job → Job → Bool
is_tied a b = a.priority == b.priority && (a.run_at == b.run_at && a.created_at == b.created_at)

-- Of no two rows is the order open.
abbrev pub AreTold : List Job → Type 0
AreTold [] = Unit
AreTold (j ∷ js) = All (λ i. is_tied j i ≡ false) js × AreTold js

insert_row-same :
    (t u : Job → ℕ) (j : Job) (js : List Job)
    → All (λ i. is_tied j i ≡ false) js
    → insert_row (returned_before t) j js ≡ insert_row (returned_before u) j js
insert_row-same t u j [] h = refl
insert_row-same t u j (i ∷ js) (told, rest) =
    let same : returned_before t j i ≡ returned_before u j i = ground (arith, told) in
    rw (same, insert_row-same t u j js rest) refl

-- Such rows come in one order, whatever the database does with ties.
pub order_by-same :
    (t u : Job → ℕ) (js : List Job)
    → AreTold js
    → order_by (returned_before t) js ≡ order_by (returned_before u) js
order_by-same t u [] h = refl
order_by-same t u (j ∷ js) (told, rest) =
    ap (insert_row (returned_before t) j) (order_by-same t u js rest)
    ∙ insert_row-same t u j (order_by (returned_before u) js)
        (All-order_by (returned_before u) _ js told)

returned_before-IsRanking : (t : Job → ℕ) → IsRanking (returned_before t)
returned_before-IsRanking t = record {
  total = λ a b h. grind (arith, h);
  trans = λ a b c h k. grind (arith, h, k);
}

weaken :
    (t : Job → ℕ) (js : List Job) → IsOrdered (returned_before t) js → IsOrdered shown_before js
weaken t [] h = tt
weaken t (j ∷ js) (first, rest) = (All-map _ _ js (λ i h. grind (arith, h)) first, weaken t js rest)

pub order_by-shown :
    (t : Job → ℕ) (js : List Job) → IsOrdered shown_before (order_by (returned_before t) js)
order_by-shown t js =
    weaken t _ (order_by-IsOrdered (returned_before t) (returned_before-IsRanking t) js)
