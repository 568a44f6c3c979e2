-- ===== src/WebPages/Accounts.antt =====
-- web/app/login/page.tsx, web/app/register/page.tsx and web/components/AppShell.tsx, over `apiFetch`: a session in the
-- browser begins and ends. The path stands for the call with its body. `at_login` also says where `router` leads.

pub mod Refused
use chronos_job_scheduler.Prelude.{ℕ, Bool, true, false, Option, none, some, List}
use chronos_job_scheduler.WebClient.{
  Call, Response, Browser, Fetched, network_error, request_failed, no_content, unauthorized,
  content, store_user, clear_token, api_fetch,
}

-- `error` is the end of `apiFetch` whose message is shown.
pub record AccountForm : Type 0 where
  pub error : Option Fetched
  pub loading : Bool

abbrev sign_in :
    {World : Type 0} → Option ℕ → Option ℕ → Fetched → Browser World → AccountForm × Browser World
sign_in (some token) (some user) fetched b = (
  record { error = none; loading = false },
  record (store_user user token b) { at_login = false },
)
sign_in _ _ fetched b = (record { error = some fetched; loading = false }, b)

-- `const data = await apiFetch(…)` and what follows; the answer carries the user and the token.
pub finish_submit : {World : Type 0} → Fetched → Browser World → AccountForm × Browser World
finish_submit (content res) b = sign_in res.access_token res.user (content res) b
finish_submit fetched b = (record { error = some fetched; loading = false }, b)

-- `authed` and `user` of the shell; nothing is shown unless it is `some true`.
pub record Shell : Type 0 where
  pub user : Option ℕ
  pub authed : Option Bool

-- The effect of `AppShell`, which looks for a stored user.
pub mount : {World : Type 0} → Browser World → Shell × Browser World
mount b = elim b.user [
  | none ↦ (record { user = none; authed = some false }, record b { at_login = true })
  | some u ↦ (record { user = some u; authed = some true }, b)
]

module _ {World : Type 0} (serve : World → Call → Option Response × World) where
  -- `handleSubmit` of both pages
  pub handle_submit : ℕ → Browser World → AccountForm × Browser World
  unfolding finish_submit
  handle_submit path b = let (fetched, b') = api_fetch serve path b in finish_submit fetched b'

  -- `handleLogout`
  pub handle_logout : ℕ → Browser World → Browser World
  handle_logout path b = record (clear_token (api_fetch serve path b).1) { at_login = true }
