-- ===== src/WebPages/Accounts/Refused.antt =====
-- web/app/login/page.tsx over web/lib/api.ts: a log-in that the server refuses.
use chronos_job_scheduler.Prelude.{ℕ, ◌≡◌, refl, true, false, Option, none, some, ◌==◌}
use chronos_job_scheduler.WebClient.{Call, request, refresh, Response, Browser, unauthorized, is_ok}
use chronos_job_scheduler.WebClient.Calls.{api_fetch-unauthorized}
use chronos_job_scheduler.WebPages.Accounts.{finish_submit, handle_submit, mount}

-- Who is refused by the server as unauthorized, for a wrong password as for an expired session, while the
-- server gives no new token either, reads the message of `apiFetch` on the log-in page that it opens, not
-- that of the server; the session that the browser may have had is gone, and no page is shown any more.
pub handle_submit-unauthorized :
    {World : Type 0} (serve : World → Call → Option Response × World) (path : ℕ) (b : Browser World)
    (res denied : Response) (w w' : World)
    → serve b.world (request path b.token) ≡ (some res, w)
    → (res.status == 401) ≡ true
    → serve w refresh ≡ (some denied, w')
    → is_ok denied ≡ false
    → let (form, b') = handle_submit serve path b in
      (form.error ≡ some unauthorized)
      × (b'.token ≡ none)
      × (b'.user ≡ none)
      × (b'.at_login ≡ true)
      × ((mount b').0.authed ≡ some false)
unfolding handle_submit finish_submit mount
handle_submit-unauthorized serve path b res denied w w' first expired second refused =
    let (end, token, user, page) =
      api_fetch-unauthorized serve path b res denied w w' first expired second refused in
    rw (handle_submit, end) (refl, token, user, page, rw (mount, user) refl)
