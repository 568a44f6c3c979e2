-- ===== src/WebPages/Live/Recent.antt =====
-- web/app/page.tsx and web/app/workers/page.tsx: what is shown after any events.
use mathlib.Core.List.{reverse_aux, reverse}
use chronos_job_scheduler.Prelude.{
  ℕ, suc, zero, ◌≤◌, ◌≡◌, refl, sym, ap, ◌∙◌, List, [], ◌∷◌, take, arith,
}
use chronos_job_scheduler.WebPages.Live.{Happening, HomePage, hear, hear_all}

take-take : (n k : ℕ) (xs : List Happening) → n ≤ k → take n (take k xs) ≡ take n xs
take-take zero k xs h = refl
take-take (suc n) zero xs h = ground arith
take-take (suc n) (suc k) [] h = refl
take-take (suc n) (suc k) (x ∷ xs) h = ap (λ ys. x ∷ ys) (take-take n k xs (omega arith))

-- What was cut off before would be cut off in the end.
take-reverse_aux :
    (n k : ℕ) (es xs : List Happening)
    → n ≤ k
    → take n (reverse_aux es (take k xs)) ≡ take n (reverse_aux es xs)
take-reverse_aux n k [] xs h = take-take n k xs h
take-reverse_aux n k (e ∷ es) xs h = take-reverse_aux n (suc k) es (e ∷ xs) (omega arith)

hear-events : (e : Happening) (p : HomePage) → (hear e p).events ≡ take 30 (e ∷ p.events)
unfolding hear
hear-events Happening.connected p = refl
hear-events Happening.disconnected p = refl
hear-events (Happening.job_changed job status queue) p = refl
hear-events (Happening.worker_beat worker count) p = refl

hear_all-events :
    (es : List Happening) (p : HomePage)
    → p.events ≡ take 30 p.events
    → (hear_all es p).events ≡ take 30 (reverse_aux es p.events)
unfolding hear_all
hear_all-events [] p cut = cut
hear_all-events (e ∷ es) p cut =
    let heard = hear-events e p in
    let again : (hear e p).events ≡ take 30 (hear e p).events =
      rw heard (sym (take-take 30 30 (e ∷ p.events) (omega arith))) in
    hear_all-events es (hear e p) again
    ∙ ap (λ xs. take 30 (reverse_aux es xs)) heard
    ∙ take-reverse_aux 30 30 es (e ∷ p.events) (omega arith)

-- A page that begins without events shows the last 30 of all that it has heard, the newest first.
pub hear_all-recent :
    (es : List Happening) (p : HomePage)
    → p.events ≡ []
    → (hear_all es p).events ≡ take 30 (reverse es)
hear_all-recent es p none_yet =
    hear_all-events es p (rw none_yet refl) ∙ ap (λ xs. take 30 (reverse_aux es xs)) none_yet
