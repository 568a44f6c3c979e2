-- ===== src/WebClient/Calls.antt =====
-- web/lib/api.ts: the calls that `apiFetch` makes, and how it ends.
use chronos_job_scheduler.Prelude.{
  leb, ltb, ◌&&◌, if◌then◌else◌, Bool, false, ℕ, ◌≡◌, refl, ap, ◌∙◌, ◌⊎◌, inl, inr, true,
  Bool-cases, Option, none, some, Option-cases, [], ◌∷◌, ◌++◌, append_assoc, ◌==◌,
}
use chronos_job_scheduler.WebClient.{
  Call, request, refresh, Response, Browser, Fetched, unauthorized, network_error, is_ok, fetch,
  take_token, refresh_token, fetch_again, after_refresh, api_fetch,
}

abbrev is_expired : Option Response → Bool
is_expired none = false
is_expired (some res) = res.status == 401

-- The token that an answer of status 200 to 299 carries.
abbrev new_token : Response → Option ℕ
new_token res = if leb 200 res.status && ltb res.status 300 then res.access_token else none

-- The token, the user and the page are as they were.
abbrev IsUntouched : {World : Type 0} → Browser World → Browser World → Type 0
IsUntouched b b' = (b'.token ≡ b.token) × (b'.user ≡ b.user) × (b'.at_login ≡ b.at_login)

module _ {World : Type 0} (serve : World → Call → Option Response × World) where
  -- A request whose first answer is not 401.
  abbrev GoesOnce : ℕ → Browser World → Browser World → Type 0
  GoesOnce path b b' = (b'.calls ≡ b.calls ++ request path b.token ∷ []) × IsUntouched b b'

  -- A request whose first answer is 401, by the answer to the call for a new token.
  abbrev GoesOn : ℕ → Browser World → Option Response → Fetched × Browser World → Type 0
  GoesOn path b second (fetched, b') =
      let two_calls = b.calls ++ request path b.token ∷ refresh ∷ [] in
      ((second ≡ none) × (fetched ≡ network_error) × (b'.calls ≡ two_calls) × IsUntouched b b')
      ⊎ ((res : Response) × (second ≡ some res)
          × (((new_token res ≡ none)
                × (fetched ≡ unauthorized)
                × (b'.calls ≡ two_calls)
                × (b'.token ≡ none)
                × (b'.user ≡ none)
                × (b'.at_login ≡ true))
              ⊎ ((t : ℕ) × (new_token res ≡ some t)
                  × (b'.calls
                      ≡ b.calls ++ request path b.token ∷ refresh ∷ request path (some t) ∷ [])
                  × (b'.token ≡ some t)
                  × (b'.user ≡ b.user)
                  × (b'.at_login ≡ b.at_login))))

  -- How the answers, the calls and the end of a request go together.
  pub Goes : ℕ → Browser World → Fetched × Browser World → Type 0
  Goes path b (fetched, b') =
      let (first, world) = serve b.world (request path b.token) in
      ((is_expired first ≡ false) × GoesOnce path b b')
      ⊎ ((is_expired first ≡ true) × GoesOn path b (serve world refresh).0 (fetched, b'))

  -- From the answer to the call for a new token on.
  after_refresh-GoesOn :
      (path : ℕ) (b b' : Browser World) (second : Option Response)
      → b'.calls ≡ b.calls ++ request path b.token ∷ refresh ∷ []
      → IsUntouched b b'
      → GoesOn path b second (after_refresh serve path (take_token serve second b'))
  unfolding fetch_again fetch
  after_refresh-GoesOn path b b' none calls same = inl (refl, refl, calls, same)
  after_refresh-GoesOn path b b' (some res) calls (token, user, page) =
      elim (Bool-cases (is_ok res)) [
        | inr refused ↦
            rw refused (inr (res, refl, inl (rw refused refl, refl, calls, refl, refl, refl)))
        | inl accepted ↦ elim (Option-cases res.access_token) [
          | inl missing ↦
              rw (accepted, missing)
                (inr (
                  record res { access_token = none },
                  refl,
                  inl (rw accepted refl, refl, calls, refl, refl, refl),
                ))
          | inr (t, given) ↦
              rw (accepted, given)
                (inr (
                  record res { access_token = some t },
                  refl,
                  inr (
                    t,
                    rw accepted refl,
                    ap (λ cs. cs ++ request path (some t) ∷ []) calls
                        ∙ append_assoc b.calls (request path b.token ∷ refresh ∷ [])
                            (request path (some t) ∷ []),
                    refl,
                    user,
                    page,
                  ),
                ))
        ]
      ]

  -- By the answer to the first call: unless it is 401, the request makes this one call, and the token, the
  -- user and the page in the browser stay. If it is 401, it makes a second call, for a new access token. If
  -- that fails on the network, the request fails for it, and all three stay; if it gives no token, the
  -- request ends as unauthorized, with the token and the user cleared and the log-in page opened; and if it
  -- gives one, the first call is made once more with it, it is kept, and the user and the page stay.
  pub api_fetch-Goes : (path : ℕ) (b : Browser World) → Goes path b (api_fetch serve path b)
  unfolding Goes api_fetch refresh_token fetch
  api_fetch-Goes path b =
      let (first, world) = serve b.world (request path b.token) in
      elim (Option-cases first) [
        | inl failed ↦ rw failed (inl (refl, (refl, (refl, refl, refl))))
        | inr (res, answered) ↦ rw answered (elim (Bool-cases (res.status == 401)) [
          | inr other ↦ rw other (inl (refl, (refl, (refl, refl, refl))))
          | inl expired ↦ rw expired (
              inr (
                refl,
                after_refresh-GoesOn path b
                    (record b {
                      world = (serve world refresh).1;
                      calls = (b.calls ++ request path b.token ∷ []) ++ refresh ∷ [];
                    })
                    (serve world refresh).0
                    (append_assoc b.calls (request path b.token ∷ []) (refresh ∷ []))
                    (refl, refl, refl),
              ))
        ])
      ]

  -- A call that is refused as unauthorized, while the server gives no new token either.
  pub api_fetch-unauthorized :
      (path : ℕ) (b : Browser World) (res denied : Response) (w w' : World)
      → serve b.world (request path b.token) ≡ (some res, w)
      → (res.status == 401) ≡ true
      → serve w refresh ≡ (some denied, w')
      → is_ok denied ≡ false
      → let (fetched, b') = api_fetch serve path b in
        (fetched ≡ unauthorized) × (b'.token ≡ none) × (b'.user ≡ none) × (b'.at_login ≡ true)
  unfolding api_fetch refresh_token fetch
  api_fetch-unauthorized path b res denied w w' first expired second refused =
      rw (first, expired, second, refused) (refl, refl, refl, refl)
