-- ===== src/Claimer/Order.antt =====
-- worker/src/claimer.ts: `ORDER BY priority DESC, run_at ASC LIMIT available`.
use mathlib.Core.Path.{subst₂}
use mathlib.Core.Option.{some_inj}
use mathlib.Core.Bool.{◌&&◌, not}
use chronos_job_scheduler.Claimer.Effects.{claim_jobs-Marked}
use chronos_job_scheduler.Prelude.{
  IsOrdered, sym, ap, ◌∙◌, All-both, ℕ, ◌≡◌, true, false, List, some, arith, take, drop, includes,
  Distinct, All-take, All-drop, includes-All, includes-select, includes-order_by,
  includes-take-drop, IsRanking, order_by-IsOrdered, IsOrdered-split,
}
use chronos_job_scheduler.Schema.{Job}
use chronos_job_scheduler.Claimer.{
  is_claimable, claim_jobs, select, Db, ranks_before, candidates, select_for_claim,
}
use chronos_job_scheduler.Claimer.Rows.{ids_of, find_job, IsFree, candidates-IsRow}

ranks_before-IsRanking : IsRanking ranks_before
ranks_before-IsRanking = record { total = λ a b h. ground arith; trans = λ a b c h k. ground arith }

candidates-IsOrdered :
    (locked : List ℕ) (queue_id now : ℕ) (jobs : List Job)
    → IsOrdered ranks_before (candidates locked queue_id now jobs)
candidates-IsOrdered locked queue_id now jobs =
    order_by-IsOrdered ranks_before ranks_before-IsRanking
      (select (λ j. is_claimable queue_id now j && not (includes j.id locked)) jobs)

same_rows :
    (jobs : List Job) (i k : ℕ) {a b : Job}
    → find_job i jobs ≡ some a
    → find_job k jobs ≡ some b
    → (a' b' : Job) → a'.id ≡ i
    → b'.id ≡ k
    → find_job a'.id jobs ≡ some a'
    → find_job b'.id jobs ≡ some b'
    → ranks_before a' b' ≡ true
    → ranks_before a b ≡ true
same_rows jobs i k {a} {b} fa fb a' b' ia ib fa' fb' h =
    let ea : a' ≡ a = some_inj.0 (sym fa' ∙ ap (λ n. find_job n jobs) ia ∙ fa) in
    let eb : b' ≡ b = some_inj.0 (sym fb' ∙ ap (λ n. find_job n jobs) ib ∙ fb) in
    subst₂ (λ x y. ranks_before x y ≡ true) ea eb h

module _ (locked : List ℕ) (queue_id available now : ℕ) (jobs : List Job)
    (distinct : Distinct (ids_of jobs)) where
  -- A free row is among the candidates: taken, or left behind.
  free_row_somewhere :
      (k : ℕ) {b : Job}
      → find_job k jobs ≡ some b
      → IsFree locked queue_id now b
      → includes k (ids_of (candidates locked queue_id now jobs)) ≡ true
  free_row_somewhere k {b} found free =
      includes-order_by (λ (j : Job). j.id) ranks_before k _
      ∙ includes-select (λ (j : Job). j.id) _ k jobs found (ground arith)

  selected_first :
      (i k : ℕ) {a b : Job}
      → find_job i jobs ≡ some a
      → find_job k jobs ≡ some b
      → includes i (select_for_claim locked queue_id available now jobs) ≡ true
      → IsFree locked queue_id now b
      → includes k (select_for_claim locked queue_id available now jobs) ≡ false
      → ranks_before a b ≡ true
  unfolding select_for_claim
  selected_first i k {a} {b} fa fb chosen free left =
      let cands = candidates locked queue_id now jobs in
      let front = take available cands in
      let back = drop available cands in
      let rows = candidates-IsRow locked queue_id now jobs distinct in
      let split =
        IsOrdered-split ranks_before available cands
          (candidates-IsOrdered locked queue_id now jobs) in
      let (a', ia, pa) =
        includes-All (λ (j : Job). j.id) _ i front
          (All-both _ _ front (All-take _ available cands rows) split) chosen in
      let behind : includes k (ids_of back) ≡ true = ground (
        arith,
        free_row_somewhere k fb free,
        includes-take-drop (λ (j : Job). j.id) k available cands,
      ) in
      let (b', ib, pb) =
        includes-All (λ (j : Job). j.id) _ k back
          (All-both _ _ back (All-drop _ available cands rows) pa.1) behind in
      same_rows jobs i k fa fb a' b' ia ib pa.0.0 pb.0.0 pb.1

-- On a table with unique identifiers, a row that was free to be claimed and was left behind by a
-- claim that commits ranks no better than any row that was claimed (lower priority, or the same
-- and due no earlier).
pub claim_jobs_best :
    (locked : List ℕ) (queue_id limit now : ℕ) (db : Db)
    → Distinct (ids_of db.jobs)
    → (i k : ℕ) {a b : Job} → find_job i db.jobs ≡ some a
    → find_job k db.jobs ≡ some b
    → includes i (claim_jobs false locked queue_id limit now db).0 ≡ true
    → IsFree locked queue_id now b
    → includes k (claim_jobs false locked queue_id limit now db).0 ≡ false
    → ranks_before a b ≡ true
claim_jobs_best locked queue_id limit now db distinct i k fa fb chosen free left =
    let same = (claim_jobs-Marked locked queue_id limit now db).0 in
    selected_first locked queue_id _ now db.jobs distinct i k fa fb (rw same at chosen) free
      (rw same at left)
