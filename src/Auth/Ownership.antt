-- ===== src/Auth/Ownership.antt =====
-- api/src/routes/auth.ts: what holds of the accounts in every state that requests lead to.
use chronos_job_scheduler.Prelude.{
  find_first, count_where, ◌++◌, ◌&&◌, String, str_eq, eq_iff, ◌+◌, ◌≤◌, ◌≡◌, refl, sym, Bool, true,
  false, Bool-cases, none, Option-cases, List, [], ◌∷◌, ◌==◌, ==_self, All, All-map, All-append,
  if◌then◌else◌, arith, exists_where, inl, inr,
}
use chronos_job_scheduler.Schema.{
  Db, User, Organization, OrgMembership, OrgMemberRole, owner, admin, member,
}
use chronos_job_scheduler.Errors.{Result-cases, ok}
use chronos_job_scheduler.Auth.{
  AuthState, Fresh, RegisterBody, find_user, new_org, new_owner, new_user, check_register,
  create_user, finish_register, register, check_login, login, check_refresh, refresh,
}
use chronos_job_scheduler.Auth.Interface.{Crypto}
use chronos_job_scheduler.Auth.Users.{open_session-db, rotate-db, logout-db}
use chronos_job_scheduler.Auth.Runs.{Action, step, run}

abbrev is_owner : OrgMemberRole → Bool
is_owner owner = true
is_owner admin = false
is_owner member = false

-- A membership of the organization is its owner's, in that role.
abbrev has_owner : List OrgMembership → Organization → Bool
has_owner ms o =
    exists_where (λ m. m.org_id == o.id && (m.user_id == o.owner_id && is_owner m.role)) ms

-- No two users share an e-mail address, and each organization's owner is a member of it as its owner.
unfoldable pub IsSound : Db → Type 0
IsSound db =
    ((email : String) → count_where (λ u. str_eq u.email email) db.users ≤ 1)
    × All (λ o. has_owner db.memberships o ≡ true) db.organizations

has_owner-append :
    (ms : List OrgMembership) (m : OrgMembership) (o : Organization)
    → has_owner ms o ≡ true
    → has_owner (ms ++ m ∷ []) o ≡ true
has_owner-append [] m o h = cc
has_owner-append (n ∷ ms) m o h = ground (arith, has_owner-append ms m o)

has_owner-new :
    (ms : List OrgMembership) (m : OrgMembership) (o : Organization)
    → has_owner (m ∷ []) o ≡ true
    → has_owner (ms ++ m ∷ []) o ≡ true
has_owner-new [] m o h = h
has_owner-new (n ∷ ms) m o h = ground (arith, has_owner-new ms m o h)

count_users-new :
    (email : String) (u : User) (us : List User)
    → count_where (λ v. str_eq v.email email) (us ++ u ∷ [])
      ≡ count_where (λ v. str_eq v.email email) us + (if str_eq u.email email then 1 else 0)
count_users-new email u [] = omega arith
count_users-new email u (v ∷ us) = omega (arith, count_users-new email u us)

count_users-absent :
    (email : String) (us : List User)
    → find_first (λ v. str_eq v.email email) us ≡ none
    → count_where (λ v. str_eq v.email email) us ≡ 0
count_users-absent email [] h = refl
count_users-absent email (v ∷ us) h = ground (arith, count_users-absent email us)

module _ {Token : Type 0} (crypto : Crypto Token) where
  -- What the transaction adds.
  abbrev with_account : Fresh → RegisterBody → Db → Db
  with_account fresh body db = record db {
    users = db.users ++ new_user crypto fresh body ∷ [];
    organizations = db.organizations ++ new_org fresh body ∷ [];
    memberships = db.memberships ++ new_owner fresh ∷ [];
  }

  with_account-IsSound :
      (fresh : Fresh) (body : RegisterBody) (db : Db)
      → find_user body.email db ≡ none
      → IsSound db
      → IsSound (with_account fresh body db)
  unfolding IsSound
  with_account-IsSound fresh body db free (few, owned) = (
    λ email.
        rw (count_users-new email (new_user crypto fresh body) db.users)
          (elim (Bool-cases (str_eq body.email email)) [
            | inl same ↦
                let e : body.email ≡ email = (eq_iff body.email email).0 same in
                let zero : count_where (λ v. str_eq v.email email) db.users ≡ 0 =
                  rw e at (count_users-absent body.email db.users free) in
                rw (same, zero) (omega arith)
            | inr other ↦ rw other (omega (arith, few email))
          ]),
    All-append _ db.organizations _
        (All-map _ _ db.organizations (λ o h. has_owner-append db.memberships (new_owner fresh) o h)
          owned)
        (
          has_owner-new db.memberships (new_owner fresh) (new_org fresh body)
              (rw (==_self fresh.org_id, ==_self fresh.user_id) refl),
          tt,
        ),
  )

  create_user-IsSound :
      (fresh : Fresh) (body : RegisterBody) (db : Db) {db' : Db}
      → create_user crypto fresh body db ≡ ok db'
      → IsSound db
      → IsSound db'
  unfolding create_user IsSound
  create_user-IsSound fresh body db {db'} made sound =
      elim (Option-cases (find_user body.email db)) [
        | inr (u, taken) ↦ let met = rw (create_user, taken) at made in cc
        | inl free ↦
            let added : ok (with_account fresh body db) ≡ ok db' = rw (create_user, free) at made in
            let e : with_account fresh body db ≡ db' = cc in
            rw (sym e) (with_account-IsSound fresh body db free sound)
      ]

  step-IsSound :
      (action : Action Token) (s : AuthState) → IsSound s.db → IsSound (step crypto action s).db
  unfolding step register finish_register login refresh
  step-IsSound (Action.registers now up fresh body) s h =
      elim (Result-cases (check_register crypto body s.db)) [
        | inr (e, refused) ↦ rw (step, register, refused) h
        | inl (done, passed) ↦
            rw (step, register, passed)
              (elim (Result-cases (create_user crypto fresh body s.db)) [
                | inr (e, taken) ↦ rw (finish_register, taken) h
                | inl (db, made) ↦
                    rw (finish_register, made)
                      (rw
                        (open_session-db crypto now up fresh.jti (new_user crypto fresh body)
                          (record s { db = db }))
                        (create_user-IsSound fresh body s.db made h))
              ])
      ]
  step-IsSound (Action.logs_in now up jti body) s h =
      elim (Result-cases (check_login crypto body s.db)) [
        | inr (e, refused) ↦ rw (step, login, refused) h
        | inl (user, passed) ↦
            rw (step, login, passed) (rw (open_session-db crypto now up jti user s) h)
      ]
  step-IsSound (Action.refreshes now reads deletes stores jti token) s h =
      elim (Result-cases (check_refresh crypto now reads token s)) [
        | inr (e, refused) ↦ rw (step, refresh, refused) h
        | inl ((old, user), passed) ↦
            rw (step, refresh, passed) (rw (rotate-db crypto now deletes stores old jti user s) h)
      ]
  step-IsSound (Action.logs_out now up token) s h = rw (logout-db crypto now up token s) h

  -- Whatever requests are made to these routes, in whatever order and with whatever answers of Redis: if before no two
  -- users share an e-mail address and each organization's owner is a member of it as its owner, then
  -- so it is after.
  pub run-IsSound :
      (actions : List (Action Token)) (s : AuthState)
      → IsSound s.db
      → IsSound (run crypto actions s).db
  unfolding run
  run-IsSound [] s h = h
  run-IsSound (a ∷ actions) s h = run-IsSound actions (step crypto a s) (step-IsSound a s h)
