-- ===== src/WebClient/Tests.antt =====
-- web/lib/api.ts: tests, and the theorem at a server whose first answer is 401.
use chronos_job_scheduler.Prelude.{
  ℕ, ◌+◌, ◌≡◌, refl, false, ◌==◌, Option, some, none, [], ◌∷◌, if◌then◌else◌,
}
use chronos_job_scheduler.WebClient.{
  Call, request, refresh, Response, Browser, fetch, refresh_token, fetch_again, api_fetch,
}
use chronos_job_scheduler.WebClient.Calls.{Goes, api_fetch-Goes}

-- The first call finds the session expired; later ones are answered.
abbrev answer : ℕ → Response
answer served =
    if served == 0
    then record { status = 401; access_token = none; user = none }
    else record { status = 200; access_token = some 9; user = none }

abbrev serve : ℕ → Call → Option Response × ℕ
serve served call = (some (answer served), served + 1)

abbrev browser : Browser ℕ
browser = record { token = some 3; user = some 1; at_login = false; world = 0; calls = [] }

three_calls :
    (api_fetch serve 5 browser).1.calls ≡ request 5 (some 3) ∷ refresh ∷ request 5 (some 9) ∷ []
unfolding api_fetch fetch refresh_token fetch_again
three_calls = refl

api_fetch-Goes_example : Goes serve 5 browser (api_fetch serve 5 browser)
api_fetch-Goes_example = api_fetch-Goes serve 5 browser
