-- ===== src/Auth/Login/Attempts.antt =====
-- A run of wrong passwords on one account, through the endpoint
-- (app/api/v1/endpoints/auth/login.py).
use cofoundaz_api.Prelude.{
  ℕ, ◌+◌, ◌*◌, ◌<◌, ◌≡◌, refl, sym, ap, ◌∙◌, Bool, true, false, Option, none, some, List, [], ◌∷◌,
  ◌==◌, if◌then◌else◌, first, first-update, ltb, All, arith, map, subst,
}
use cofoundaz_api.Errors.{Result, err, account_locked}
use cofoundaz_api.Auth.{User, AuthDb, Settings, Crypto, Fresh, Client}
use cofoundaz_api.Auth.Login.{Signed, is_locked, accepts, record_failure, login}
use cofoundaz_api.Auth.Login.Lockout.{
  failures, amount, failures_below, failures_below-locked, failures_lock, login_locked,
  login_wrong_password,
}

-- A sign-in: its time, its password, where it comes from and what it draws.
pub record Attempt : Type 0 where
  pub now : ℕ
  pub password : ℕ
  pub client : Client
  pub fresh : Fresh

==_refl : (n : ℕ) → (n == n) ≡ true
==_refl n = ground arith

module _ (settings : Settings) (crypto : Crypto) (email : ℕ) where
  abbrev pub attempt : Attempt → AuthDb → Result Signed × AuthDb
  attempt a db = login settings crypto email a.password a.client a.now a.fresh db

  -- The tables after the attempts, in their order.
  abbrev pub after : List Attempt → AuthDb → AuthDb
  after [] db = db
  after (a ∷ attempts) db = after attempts (attempt a db).1

  abbrev pub IsWrong : User → Attempt → Type 0
  IsWrong u a = accepts crypto a.password u ≡ false

  abbrev account : AuthDb → Option User
  account db = first (λ u. u.email == email) db.users

  abbrev accepts_hash : ℕ → Option ℕ → Bool
  accepts_hash password stored = elim stored [
    | none ↦ false
    | some h ↦ crypto.verify_password password h
  ]

  abbrev times : List Attempt → List ℕ
  times attempts = map (λ (a : Attempt). a.now) attempts

  -- What is wrong depends on the stored hash only.
  All-same :
      (u v : User)
      → v.password_hash ≡ u.password_hash
      → (attempts : List Attempt) → All (IsWrong u) attempts
      → All (IsWrong v) attempts
  All-same u v same [] h = tt
  All-same u v same (a ∷ attempts) h = (
    subst (λ stored. accepts_hash a.password stored ≡ false) (sym same) h.0,
    All-same u v same attempts h.1,
  )

  -- Whether the account is locked at a time depends on the stored time only.
  abbrev locked_at : ℕ → Option ℕ → Bool
  locked_at now stored = elim stored [ none ↦ false | some t ↦ ltb now t ]

  abbrev pub IsOpen : User → Attempt → Type 0
  IsOpen u a = is_locked a.now u ≡ false

  All-IsOpen :
      (u v : User)
      → v.locked_until ≡ u.locked_until
      → (attempts : List Attempt) → All (IsOpen u) attempts
      → All (IsOpen v) attempts
  All-IsOpen u v same [] h = tt
  All-IsOpen u v same (a ∷ attempts) h = (
    subst (λ stored. locked_at a.now stored ≡ false) (sym same) h.0,
    All-IsOpen u v same attempts h.1,
  )

  record_failure-kept :
      (now : ℕ) (u : User)
      → ((record_failure settings now u).password_hash ≡ u.password_hash)
        × ((record_failure settings now u).email ≡ u.email)
  unfolding record_failure
  record_failure-kept now u = ground arith

  failures-hash :
      (nows : List ℕ) (u : User) → (failures settings nows u).password_hash ≡ u.password_hash
  failures-hash [] u = refl
  failures-hash (now ∷ nows) u =
      failures-hash nows (record_failure settings now u) ∙ (record_failure-kept now u).0

  attempt-account :
      (a : Attempt) (db : AuthDb) (u : User)
      → account db ≡ some u
      → IsOpen u a
      → IsWrong u a
      → account (attempt a db).1 ≡ some (record_failure settings a.now u)
  attempt-account a db u known unlocked wrong =
      let (_, users, _) =
        login_wrong_password settings crypto email a.password a.client a.now a.fresh db u known
          unlocked wrong in
      ap (first (λ u. u.email == email)) users
      ∙ first-update (λ u. u.email == email) (λ x. x.id == u.id) (record_failure settings a.now)
          db.users u (λ x. ap (λ e. e == email) (record_failure-kept a.now x).1) known
      ∙ ap (λ b. some (if b then record_failure settings a.now u else u)) (==_refl u.id)

  -- Below the limit, the attempts are the failures of the account that `failures` counts.
  after-account :
      (attempts : List Attempt) (db : AuthDb) (u : User)
      → account db ≡ some u
      → All (IsOpen u) attempts
      → All (IsWrong u) attempts
      → u.failed_login_count + amount (times attempts) < settings.login_max_fails
      → account (after attempts db) ≡ some (failures settings (times attempts) u)
  after-account [] db u known unlocked wrong below = known
  after-account (a ∷ attempts) db u known unlocked wrong below =
      let u' = record_failure settings a.now u in
      let still =
        All-IsOpen u u' (failures_below-locked settings (a.now ∷ []) u (omega arith)) attempts
          unlocked.1 in
      let one : u'.failed_login_count ≡ u.failed_login_count + 1 =
        failures_below settings (a.now ∷ []) u (omega arith) in
      after-account attempts (attempt a db).1 u' (attempt-account a db u known unlocked.0 wrong.0)
        still (All-same u u' (record_failure-kept a.now u).0 attempts wrong.1) (omega (arith, one))

-- An account that has no failures on its count and is not locked, now and at the sign-ins that follow,
-- by a lock that may have run out before, after as many sign-ins with a wrong password as the limit
-- allows: until the lockout time has passed since the last of them, every
-- sign-in with its e-mail is refused as locked and writes nothing, with the right password too.
pub lockout_after_failures :
    (settings : Settings) (crypto : Crypto) (email : ℕ) (attempts : List Attempt) (last a : Attempt)
    (db : AuthDb) (u : User)
    → first (λ u. u.email == email) db.users ≡ some u
    → All (IsOpen settings crypto email u) attempts
    → IsOpen settings crypto email u last
    → u.failed_login_count ≡ 0
    → All (IsWrong settings crypto email u) attempts
    → IsWrong settings crypto email u last
    → amount (map (λ x. x.now) attempts) + 1 ≡ settings.login_max_fails
    → a.now < last.now + settings.login_lockout_minutes * 60
    → let db' = (attempt settings crypto email last (after settings crypto email attempts db)).1 in
      attempt settings crypto email a db' ≡ (err account_locked, db')
lockout_after_failures settings crypto email attempts last a db u known unlocked unlocked_last
      none_yet wrong wrong_last enough soon =
    let nows = map (λ (x : Attempt). x.now) attempts in
    let before = failures settings nows u in
    let at_limit =
      after-account settings crypto email attempts db u known unlocked wrong (omega arith) in
    let (same_lock, locked, _) = failures_lock settings nows last.now u none_yet enough in
    let kept = failures-hash settings crypto email nows u in
    let closed =
      attempt-account settings crypto email last (after settings crypto email attempts db) before
        at_limit
        (subst (λ stored. locked_at settings crypto email last.now stored ≡ false) (sym same_lock)
          unlocked_last)
        (subst (λ stored. accepts_hash settings crypto email last.password stored ≡ false)
          (sym kept) wrong_last) in
    login_locked settings crypto email a.password a.client a.now a.fresh _ _ closed
      (rw locked (ground arith))
