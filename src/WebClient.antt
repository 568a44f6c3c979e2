-- ===== src/WebClient.antt =====
-- web/lib/api.ts, in a browser: `apiFetch`, which renews the session once. The server is a parameter that answers
-- a call and goes on to its next state; a call that fails on the network throws, which `none` stands for.
pub mod Calls
mod Tests
use chronos_job_scheduler.Prelude.{
  ℕ, Bool, true, false, ◌&&◌, Option, none, some, List, [], ◌∷◌, ◌++◌, ◌==◌, leb, ltb,
  if◌then◌else◌,
}

-- What a call asks for: a path, with the token of the `Authorization` header, or a new access token.
pub data Call : Type 0 where
  request : ℕ → Option ℕ → Call
  refresh : Call

-- The status, and of the body `accessToken` and `user`.
pub record Response : Type 0 where
  pub status : ℕ
  pub access_token : Option ℕ
  pub user : Option ℕ

-- `localStorage` (the token and the user) and `window.location`, the state of the server, and the calls so far.
pub record Browser (World : Type 0) : Type 0 where
  pub token : Option ℕ
  pub user : Option ℕ
  pub at_login : Bool
  pub world : World
  pub calls : List Call

pub data Fetched : Type 0 where
  unauthorized request_failed network_error no_content : Fetched
  content : Response → Fetched

abbrev pub is_ok : Response → Bool
is_ok res = leb 200 res.status && ltb res.status 300

abbrev pub clear_token : {World : Type 0} → Browser World → Browser World
clear_token b = record b { token = none; user = none }

abbrev pub store_user : {World : Type 0} → ℕ → ℕ → Browser World → Browser World
store_user user token b = record b { token = some token; user = some user }

module _ {World : Type 0} (serve : World → Call → Option Response × World) where
  -- `fetch`
  pub fetch : Call → Browser World → Option Response × Browser World
  fetch call b =
      let (answer, world) = serve b.world call in
      (answer, record b { world = world; calls = b.calls ++ call ∷ [] })

  -- `refreshToken`, after its call: whether it got a token, which it stores; `none` where it throws.
  abbrev pub take_token : Option Response → Browser World → Option Bool × Browser World
  take_token none b = (none, b)
  take_token (some res) b =
      if is_ok res
      then elim res.access_token [
        | none ↦ (some false, b)
        | some t ↦ (some true, record b { token = some t })
      ]
      else (some false, b)

  pub refresh_token : Browser World → Option Bool × Browser World
  unfolding fetch
  refresh_token b = let (answer, b') = fetch refresh b in take_token answer b'

  -- The last lines, which a second answer of 401 reaches as well.
  abbrev pub finish : Response → Fetched
  finish res =
      if is_ok res then if res.status == 204 then no_content else content res else request_failed

  abbrev pub finish_some : Option Response → Fetched
  finish_some none = network_error
  finish_some (some res) = finish res

  -- `apiFetch` with `retry` false
  pub fetch_again : ℕ → Browser World → Fetched × Browser World
  unfolding fetch
  fetch_again path b = let (answer, b') = fetch (request path b.token) b in (finish_some answer, b')

  -- No refresh: the session is cleared, and the way is to the log-in page.
  abbrev pub give_up : Browser World → Fetched × Browser World
  give_up b = (unauthorized, record (clear_token b) { at_login = true })

  abbrev pub after_refresh : ℕ → Option Bool × Browser World → Fetched × Browser World
  unfolding fetch_again
  after_refresh path (none, b) = (network_error, b)
  after_refresh path (some true, b) = fetch_again path b
  after_refresh path (some false, b) = give_up b

  abbrev pub after_first : ℕ → Option Response × Browser World → Fetched × Browser World
  unfolding refresh_token fetch_again
  after_first path (none, b) = (network_error, b)
  after_first path (some res, b) =
      let rest = after_refresh path (refresh_token b) in
      if res.status == 401 then rest else (finish res, b)

  -- `apiFetch`
  pub api_fetch : ℕ → Browser World → Fetched × Browser World
  unfolding fetch refresh_token fetch_again
  api_fetch path b = after_first path (fetch (request path b.token) b)
