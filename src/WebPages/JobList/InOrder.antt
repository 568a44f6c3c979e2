-- ===== src/WebPages/JobList/InOrder.antt =====
-- web/app/jobs/page.tsx and GET /jobs: what the page shows once all its answers have come.
use mathlib.Core.Path.{subst}
use chronos_job_scheduler.Prelude.{
  and_true, ℕ, ◌+◌, ◌-◌, min, max, ◌≡◌, refl, sym, ap, ◌∙◌, str_eq, eq_iff, ==→eq, Bool, true,
  false, Bool-cases, Option, none, some, Option-cases, List, [], ◌∷◌, ◌++◌, ◌==◌, leb,
  if◌then◌else◌, ◌⊎◌, inl, inr,
}
use chronos_job_scheduler.Listing.{Listing}
use chronos_job_scheduler.Jobs.Reads.{JobQuery, JobSummary}
use chronos_job_scheduler.WebPages.JobList.{
  JobsPage, query_of, load_jobs, load_jobs_of, loaded, same_queue, same_query, update,
  choose_status, choose_queue, clear_filters, total_pages, go_prev, go_next, Event, arrive, step,
  run, start,
}
use Event.{arrives}

same_queue→eq : (a b : Option ℕ) → same_queue a b ≡ true → a ≡ b
same_queue→eq none none h = refl
same_queue→eq (some a) (some b) h = ap some (==→eq a b h)
same_queue→eq none (some b) h = cc
same_queue→eq (some a) none h = cc

-- What is asked for depends on no more than `same_query` compares.
same_query→eq : (p q : JobsPage) → same_query p q ≡ true → query_of p ≡ query_of q
same_query→eq p q h =
    let (pages, others) = and_true (p.page == q.page) _ h in
    let (statuses, queues) = and_true (str_eq p.filter_status q.filter_status) _ others in
    let page : p.page ≡ q.page = ==→eq p.page q.page pages in
    let status : p.filter_status ≡ q.filter_status =
      (eq_iff p.filter_status q.filter_status).0 statuses in
    let queue : p.filter_queue ≡ q.filter_queue =
      same_queue→eq p.filter_queue q.filter_queue queues in
    cc

-- Turning the page leaves the listing for its answer.
turned :
    (b : Bool) (p : JobsPage) (n : ℕ)
    → let q : JobsPage = if b then p else record p { page = n } in
      (q.pending ≡ p.pending) × (q.jobs ≡ p.jobs) × (q.total ≡ p.total)
turned true p n = (refl, refl, refl)
turned false p n = (refl, refl, refl)

-- Answers come in the order of the requests, and a change is answered while the page asks for the same as
-- when the button or the form was used.
abbrev pub IsTimely : Event → JobsPage → Type 0
IsTimely (arrives k) p = k ≡ 0
IsTimely (Event.retries rendered true) p = query_of rendered ≡ query_of p
IsTimely (Event.cancels rendered true) p = query_of rendered ≡ query_of p
IsTimely (Event.submits rendered true form) p = query_of rendered ≡ query_of p
IsTimely e p = Unit

unfoldable pub AreTimely : (JobQuery → Option (Listing JobSummary)) → List Event → JobsPage → Type 0
unfolding step
AreTimely serve [] p = Unit
AreTimely serve (e ∷ es) p = IsTimely e p × AreTimely serve es (step serve e p)

module _ (serve : JobQuery → Option (Listing JobSummary)) where
  -- The rows and the total are the server's answer to what the page now asks for.
  abbrev pub IsCurrent : JobsPage → Type 0
  IsCurrent p =
      (l : Listing JobSummary)
      → serve (query_of p) ≡ some l
      → (p.jobs ≡ l.rows) × (p.total ≡ l.meta.total)

  -- The last request on its way is for what the page now asks for.
  abbrev pub IsAwaited : JobsPage → Type 0
  IsAwaited p = (qs : List JobQuery) × (p.pending ≡ qs ++ query_of p ∷ [])

  abbrev Follows : JobsPage → Type 0
  Follows p = ((p.pending ≡ []) × IsCurrent p) ⊎ IsAwaited p

  Follows-load_jobs : (p : JobsPage) → Follows (load_jobs p)
  Follows-load_jobs p = inr (p.pending, refl)

  Follows-load_jobs_of :
      (rendered p : JobsPage) → query_of rendered ≡ query_of p → Follows (load_jobs_of rendered p)
  Follows-load_jobs_of rendered p same = inr (p.pending, ap (λ q. p.pending ++ q ∷ []) same)

  -- A change of the state that leaves the listing alone, and asks for the same.
  Follows-kept :
      (p q : JobsPage)
      → q.pending ≡ p.pending
      → query_of p ≡ query_of q
      → q.jobs ≡ p.jobs
      → q.total ≡ p.total
      → Follows p
      → Follows q
  Follows-kept p q pending query jobs total (inl (none_left, current)) = inl (
    pending ∙ none_left,
    λ l h. let (rows, number) = current l (ap serve query ∙ h) in (jobs ∙ rows, total ∙ number),
  )
  Follows-kept p q pending query jobs total (inr (qs, last)) =
      inr (qs, pending ∙ last ∙ ap (λ x. qs ++ x ∷ []) query)

  arrive-none : (p : JobsPage) → p.pending ≡ [] → arrive serve 0 p ≡ p
  arrive-none p none_left = rw none_left refl

  arrive-some :
      (p : JobsPage) (q : JobQuery) (qs : List JobQuery)
      → p.pending ≡ q ∷ qs
      → arrive serve 0 p ≡ loaded (serve q) (record p { pending = qs })
  arrive-some p q qs first = rw first refl

  -- The answer to the last request.
  Follows-last : (p : JobsPage) → Follows (loaded (serve (query_of p)) (record p { pending = [] }))
  Follows-last p = elim (Option-cases (serve (query_of p))) [
    | inl failed ↦ rw failed (inl (refl, λ l h. cc))
    | inr (a, answered) ↦ rw answered (
        inl (
          refl,
          λ l h.
              let same : a ≡ l = cc in
              (
                ap (λ (x : Listing JobSummary). x.rows) same,
                ap (λ (x : Listing JobSummary). x.meta.total) same,
              ),
        ))
  ]

  Follows-more :
      (p : JobsPage) (q : JobQuery) (qs : List JobQuery)
      → Follows (loaded (serve q) (record p { pending = qs ++ query_of p ∷ [] }))
  Follows-more p q qs = elim (Option-cases (serve q)) [
    | inl failed ↦ rw failed (inr (qs, refl))
    | inr (a, answered) ↦ rw answered (inr (qs, refl))
  ]

  Follows-arrive : (p : JobsPage) → Follows p → Follows (arrive serve 0 p)
  Follows-arrive p (inl (none_left, current)) =
      subst Follows (sym (arrive-none p none_left)) (inl (none_left, current))
  Follows-arrive p (inr ([], last)) =
      subst Follows (sym (arrive-some p (query_of p) [] last)) (Follows-last p)
  Follows-arrive p (inr (q ∷ qs, last)) =
      subst Follows (sym (arrive-some p q _ last)) (Follows-more p q qs)

  Follows-update :
      (f : JobsPage → JobsPage) (p : JobsPage)
      → (f p).pending ≡ p.pending
      → (f p).jobs ≡ p.jobs
      → (f p).total ≡ p.total
      → Follows p
      → Follows (update f p)
  Follows-update f p pending jobs total h = elim (Bool-cases (same_query p (f p))) [
    | inl same ↦ rw same (Follows-kept p (f p) pending (same_query→eq p (f p) same) jobs total h)
    | inr other ↦ rw other (Follows-load_jobs (f p))
  ]

  step-Follows : (e : Event) (p : JobsPage) → IsTimely e p → Follows p → Follows (step serve e p)
  unfolding step
  step-Follows (Event.chooses_status status) p first h =
      Follows-update (choose_status status) p refl refl refl h
  step-Follows (Event.chooses_queue queue) p first h =
      Follows-update (choose_queue queue) p refl refl refl h
  step-Follows Event.clears p first h = Follows-update clear_filters p refl refl refl h
  step-Follows Event.goes_prev p first h =
      let (pending, jobs, total) = turned (p.page == 1) p (max 1 (p.page - 1)) in
      Follows-update go_prev p pending jobs total h
  step-Follows Event.goes_next p first h =
      let (pending, jobs, total) =
        turned (leb (total_pages p) p.page) p (min (total_pages p) (p.page + 1)) in
      Follows-update go_next p pending jobs total h
  step-Follows Event.closes p first h = h
  step-Follows Event.hears_transition p first h = Follows-load_jobs p
  step-Follows (Event.opens j) p first h = h
  step-Follows (Event.hears_detail none) p first h = h
  step-Follows (Event.hears_detail (some answers)) p first h = h
  step-Follows (Event.retries rendered true) p first h = Follows-load_jobs_of rendered p first
  step-Follows (Event.retries rendered false) p first h = h
  step-Follows (Event.cancels rendered true) p first h = Follows-load_jobs_of rendered p first
  step-Follows (Event.cancels rendered false) p first h = h
  step-Follows (Event.closes_changed rendered id) p first h =
      elim (Option-cases rendered.selected) [
        | inl closed ↦ rw closed h
        | inr (j, opened) ↦
            rw opened
              (elim (Bool-cases (j.id == id)) [ inl same ↦ rw same h | inr other ↦ rw other h ])
      ]
  step-Follows (Event.submits rendered true form) p first h = Follows-load_jobs_of rendered p first
  step-Follows (Event.submits rendered false form) p first h = h
  step-Follows (arrives k) p first h =
      subst (λ k. Follows (arrive serve k p)) (sym first) (Follows-arrive p h)

  run-Follows :
      (es : List Event) (p : JobsPage) → AreTimely serve es p → Follows p → Follows (run serve es p)
  unfolding run AreTimely
  run-Follows [] p first h = h
  run-Follows (e ∷ es) p (first, rest) h =
      run-Follows es (step serve e p) rest (step-Follows e p first h)

  append-nonempty : {P : Type 0} (qs : List JobQuery) (q : JobQuery) → qs ++ q ∷ [] ≡ [] → P
  append-nonempty [] q h = cc
  append-nonempty (x ∷ xs) q h = cc

  -- Once no request is on its way.
  pub run-IsCurrent :
      (es : List Event)
      → AreTimely serve es start
      → (run serve es start).pending ≡ []
      → IsCurrent (run serve es start)
  run-IsCurrent es first none_left = elim (run-Follows es start first (inr ([], refl))) [
    | inl (empty, current) ↦ current
    | inr (qs, last) ↦ append-nonempty qs _ (sym last ∙ none_left)
  ]
