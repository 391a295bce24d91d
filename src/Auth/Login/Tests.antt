-- ===== src/Auth/Login/Tests.antt =====
-- One user, three failures allowed.
use cofoundaz_api.Prelude.{ℕ, ◌≡◌, refl, true, false, some, [], ◌∷◌, arith, first, ◌==◌}
use cofoundaz_api.Errors.{ok, err, account_locked}
use cofoundaz_api.Auth.{AuthDb, User}
use cofoundaz_api.Auth.Fixtures.{settings, crypto, ada, browser, draw, signed_in}
use cofoundaz_api.Auth.Login.{is_locked, is_disabled, has_mfa, accepts, login, signed}
use cofoundaz_api.Auth.Login.Attempts.{Attempt, attempt, after, lockout_after_failures}
use cofoundaz_api.Auth.Login.Lockout.{login_signed_only}

a_sign_in : (login settings crypto 50 42 browser 100 (draw 9) signed_in).0 ≡ ok (signed 1001 9)
unfolding login
a_sign_in = refl

abbrev try : ℕ → ℕ → Attempt
try now password = record { now = now; password = password; client = browser; fresh = draw 9 }

-- The lock of an earlier run of failures ended at 90.
abbrev unlocked : User
unlocked = record ada { locked_until = some 90 }

abbrev open_again : AuthDb
open_again = record signed_in { users = unlocked ∷ [] }

lockout_after_failures_example :
    let before = after settings crypto 50 (try 100 41 ∷ try 101 40 ∷ []) open_again in
    let db' = (attempt settings crypto 50 (try 102 41) before).1 in
    attempt settings crypto 50 (try 600 42) db' ≡ (err account_locked, db')
lockout_after_failures_example =
    lockout_after_failures settings crypto 50 (try 100 41 ∷ try 101 40 ∷ []) (try 102 41)
      (try 600 42) open_again unlocked refl (refl, (refl, tt)) refl refl (refl, (refl, tt)) refl
      refl (omega arith)

login_signed_only_example :
    (user : User) × (first (λ u. u.email == 50) signed_in.users ≡ some user)
    × (is_locked 100 user ≡ false)
    × (accepts crypto 42 user ≡ true)
    × (is_disabled user.status ≡ false)
    × (has_mfa user.mfa_type ≡ false)
unfolding login
login_signed_only_example =
    login_signed_only settings crypto 50 42 browser 100 (draw 9) signed_in 1001 9 refl
