-- ===== src/Auth/Login/Lockout.antt =====
-- The account lockout, sign-in by sign-in (app/api/v1/endpoints/auth/login.py).
use cofoundaz_api.Prelude.{
  ℕ, suc, ◌+◌, ◌*◌, ◌<◌, ◌≡◌, refl, true, false, some, List, [], ◌∷◌, ◌==◌, first, update_where,
  Bool-cases, All, All-update, arith, Option-cases, inl, inr,
}
use cofoundaz_api.Errors.{err-ne-ok, ok, err, account_locked, invalid_credentials}
use cofoundaz_api.Auth.{User, AuthDb, Settings, Crypto, Fresh, Client}
use cofoundaz_api.Auth.Sessions.{issue_token_pair}
use cofoundaz_api.Auth.Login.{
  is_locked, is_disabled, has_mfa, accepts, clear_failures, set_last_login, record_failure,
  login_user, login, signed,
}

-- The failures of a user, at the instants of the list.
abbrev pub failures : Settings → List ℕ → User → User
failures settings [] u = u
failures settings (now ∷ nows) u = failures settings nows (record_failure settings now u)

abbrev pub amount : List ℕ → ℕ
amount [] = 0
amount (x ∷ xs) = suc (amount xs)

-- Fewer failures than the limit are counted and do not lock.
pub failures_below :
    (settings : Settings) (nows : List ℕ) (u : User)
    → u.failed_login_count + amount nows < settings.login_max_fails
    → (failures settings nows u).failed_login_count ≡ u.failed_login_count + amount nows
unfolding record_failure
failures_below settings [] u h = omega arith
failures_below settings (now ∷ nows) u h =
    ground (arith, failures_below settings nows (record_failure settings now u))

pub failures_below-locked :
    (settings : Settings) (nows : List ℕ) (u : User)
    → u.failed_login_count + amount nows < settings.login_max_fails
    → (failures settings nows u).locked_until ≡ u.locked_until
unfolding record_failure
failures_below-locked settings [] u h = refl
failures_below-locked settings (now ∷ nows) u h =
    ground (arith, failures_below-locked settings nows (record_failure settings now u))

-- From a count of zero, one failure less than the limit leaves the lock as it was, and the failure
-- that reaches the limit locks the account for the lockout time from then on and restarts the count.
pub failures_lock :
    (settings : Settings) (nows : List ℕ) (now : ℕ) (u : User)
    → u.failed_login_count ≡ 0
    → amount nows + 1 ≡ settings.login_max_fails
    → let before = failures settings nows u in
      let after = record_failure settings now before in
      (before.locked_until ≡ u.locked_until)
      × (after.locked_until ≡ some (now + settings.login_lockout_minutes * 60))
      × (after.failed_login_count ≡ 0)
unfolding record_failure
failures_lock settings nows now u start enough =
    ground (arith, failures_below settings nows u, failures_below-locked settings nows u)

-- No account keeps a count at or over the limit.
abbrev pub IsBelowLimit : Settings → AuthDb → Type 0
IsBelowLimit settings db = All (λ u. u.failed_login_count < settings.login_max_fails) db.users

record_failure-below :
    (settings : Settings) (now : ℕ) (u : User)
    → 0 < settings.login_max_fails
    → (record_failure settings now u).failed_login_count < settings.login_max_fails
unfolding record_failure
record_failure-below settings now u h = ground arith

login_user-IsBelowLimit :
    (settings : Settings) (crypto : Crypto) (password : ℕ) (client : Client) (now : ℕ)
    (fresh : Fresh) (user : User) (db : AuthDb)
    → 0 < settings.login_max_fails
    → IsBelowLimit settings db
    → IsBelowLimit settings (login_user settings crypto password client now fresh user db).1
unfolding login_user issue_token_pair
login_user-IsBelowLimit settings crypto password client now fresh user db pos h =
    let P = λ (u : User). u.failed_login_count < settings.login_max_fails in
    let mine = λ (u : User). u.id == user.id in
    let cleared = All-update P mine clear_failures db.users (λ x e k. pos) h in
    elim (Bool-cases (accepts crypto password user)) [
      | inr wrong ↦
          rw (wrong, login_user)
            (All-update P mine (record_failure settings now) db.users
              (λ x e k. record_failure-below settings now x pos) h)
      | inl right ↦ elim (Bool-cases (is_disabled user.status)) [
        | inl barred ↦ rw (right, login_user) (rw barred h)
        | inr allowed ↦ elim (Bool-cases (has_mfa user.mfa_type)) [
          | inl second ↦ rw (right, login_user) (rw allowed (rw second cleared))
          | inr single ↦
              rw (right, login_user)
                (rw allowed
                  (rw single (All-update P mine (set_last_login now) _ (λ x e k. k) cleared)))
        ]
      ]
    ]

-- With a limit above zero, every sign-in keeps the failure counts of all accounts below the limit.
pub login-IsBelowLimit :
    (settings : Settings) (crypto : Crypto) (email password : ℕ) (client : Client) (now : ℕ)
    (fresh : Fresh) (db : AuthDb)
    → 0 < settings.login_max_fails
    → IsBelowLimit settings db
    → IsBelowLimit settings (login settings crypto email password client now fresh db).1
unfolding login
login-IsBelowLimit settings crypto email password client now fresh db pos h =
    elim (Option-cases (first (λ (u : User). u.email == email) db.users)) [
      | inl unknown ↦ rw (unknown, login) h
      | inr (user, known) ↦ elim (Bool-cases (is_locked now user)) [
        | inl locked_now ↦ rw (known, login) (rw locked_now h)
        | inr open_now ↦
            rw (known, login)
              (rw open_now
                (login_user-IsBelowLimit settings crypto password client now fresh user db pos h))
      ]
    ]

-- While the account that an e-mail leads to is locked, every sign-in with that e-mail is refused as
-- locked, with the right password too, and writes nothing.
pub login_locked :
    (settings : Settings) (crypto : Crypto) (email password : ℕ) (client : Client) (now : ℕ)
    (fresh : Fresh) (db : AuthDb) (user : User)
    → first (λ u. u.email == email) db.users ≡ some user
    → is_locked now user ≡ true
    → login settings crypto email password client now fresh db ≡ (err account_locked, db)
unfolding login
login_locked settings crypto email password client now fresh db user known locked_now =
    rw (known, login) (rw locked_now refl)

-- On an account that is not locked, a wrong password is refused and issues no session, and the
-- failure stays recorded on that account's row, although the request ends in an error.
pub login_wrong_password :
    (settings : Settings) (crypto : Crypto) (email password : ℕ) (client : Client) (now : ℕ)
    (fresh : Fresh) (db : AuthDb) (user : User)
    → first (λ u. u.email == email) db.users ≡ some user
    → is_locked now user ≡ false
    → accepts crypto password user ≡ false
    → let (result, db') = login settings crypto email password client now fresh db in
      (result ≡ err invalid_credentials)
      × (db'.users ≡ update_where (λ u. u.id == user.id) (record_failure settings now) db.users)
      × (db'.sessions ≡ db.sessions)
unfolding login login_user
login_wrong_password settings crypto email password client now fresh db user known open_now wrong =
    rw (known, login) (rw open_now (rw (wrong, login_user) (refl, refl, refl)))

login_user-signed :
    (settings : Settings) (crypto : Crypto) (password : ℕ) (client : Client) (now : ℕ)
    (fresh : Fresh) (user : User) (db : AuthDb) (access raw : ℕ)
    → (login_user settings crypto password client now fresh user db).0 ≡ ok (signed access raw)
    → (accepts crypto password user ≡ true)
      × (is_disabled user.status ≡ false)
      × (has_mfa user.mfa_type ≡ false)
unfolding login_user
login_user-signed settings crypto password client now fresh user db access raw h = ground arith

-- A sign-in that hands out tokens was for an account that is found, not locked and not disabled,
-- with the right password, and without a second factor.
pub login_signed_only :
    (settings : Settings) (crypto : Crypto) (email password : ℕ) (client : Client) (now : ℕ)
    (fresh : Fresh) (db : AuthDb) (access raw : ℕ)
    → (login settings crypto email password client now fresh db).0 ≡ ok (signed access raw)
    → (user : User) × (first (λ u. u.email == email) db.users ≡ some user)
      × (is_locked now user ≡ false)
      × (accepts crypto password user ≡ true)
      × (is_disabled user.status ≡ false)
      × (has_mfa user.mfa_type ≡ false)
unfolding login
login_signed_only settings crypto email password client now fresh db access raw h =
    elim (Option-cases (first (λ (u : User). u.email == email) db.users)) [
      | inl unknown ↦ absurd (err-ne-ok (rw (unknown, login) at h))
      | inr (user, known) ↦ elim (Bool-cases (is_locked now user)) [
        | inl locked_now ↦ absurd (err-ne-ok (rw (known, login, locked_now) at h))
        | inr open_now ↦
            let (right, allowed, single) =
              login_user-signed settings crypto password client now fresh user db access raw
                (rw (known, login, open_now) at h) in
            (user, known, open_now, right, allowed, single)
      ]
    ]
