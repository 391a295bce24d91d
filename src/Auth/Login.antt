-- ===== src/Auth/Login.antt =====
-- Sign-in with a password and the account lockout (app/api/v1/endpoints/auth/login.py). The limiter
-- in front of the endpoint, the MFA ticket in Redis and the cookie are outside this model.
pub mod Lockout
pub mod Attempts
mod Tests
use cofoundaz_api.Prelude.{
  ℕ, ◌+◌, ◌*◌, Bool, true, false, Option, none, some, List, [], ◌∷◌, ◌++◌, ◌==◌, ◌&&◌, ◌||◌, not,
  leb, ltb, if◌then◌else◌, first, update_where,
}
use cofoundaz_api.Errors.{Result, ok, err, account_locked, invalid_credentials}
use cofoundaz_api.Transaction.{Tx}
use cofoundaz_api.Auth.{
  User, UserStatus, MfaType, off, totp, sms, disabled, pending_verification, active, locked, AuthDb,
  Settings, Crypto, Fresh, Client, AuditAction,
}
use cofoundaz_api.Auth.Sessions.{issue_token_pair}

-- `user.locked_until and user.locked_until > now`
abbrev pub is_locked : ℕ → User → Bool
is_locked now u = elim u.locked_until [ none ↦ false | some t ↦ ltb now t ]

-- The password check, on a user that may have no password.
abbrev pub accepts : Crypto → ℕ → User → Bool
accepts crypto password u = elim u.password_hash [
  | none ↦ false
  | some h ↦ crypto.verify_password password h
]

abbrev pub is_disabled : UserStatus → Bool
is_disabled disabled = true
is_disabled _ = false

abbrev pub has_mfa : MfaType → Bool
has_mfa off = false
has_mfa _ = true

pub data Signed : Type 0 where
  -- "mfa_required": no session was issued
  mfa_required : Signed
  -- the access and the refresh token
  signed : ℕ → ℕ → Signed

-- One more failure: the last one allowed locks the account and starts the count again.
pub record_failure : Settings → ℕ → User → User
record_failure settings now u =
    let n = u.failed_login_count + 1 in
    if leb settings.login_max_fails n
    then record u {
      failed_login_count = 0;
      locked_until = some (now + settings.login_lockout_minutes * 60);
    }
    else record u { failed_login_count = n }

abbrev pub clear_failures : User → User
clear_failures u = record u { failed_login_count = 0; locked_until = none }

abbrev pub set_last_login : ℕ → User → User
set_last_login now u = record u { last_login_at = some now }

abbrev audited : AuditAction → Option ℕ → AuthDb → AuthDb
audited action actor db = record db { audit = db.audit ++ (action, actor) ∷ [] }

abbrev update_user : ℕ → (User → User) → AuthDb → AuthDb
update_user id f db = record db { users = update_where (λ u. u.id == id) f db.users }

-- `login` for a user that was found and is not locked.
pub login_user : Settings → Crypto → ℕ → Client → ℕ → Fresh → User → Tx AuthDb Signed
unfolding record_failure issue_token_pair
login_user settings crypto password client now fresh user db =
    if not (accepts crypto password user)
    then (
      err invalid_credentials,
      audited AuditAction.login_failed (some user.id)
          (update_user user.id (record_failure settings now) db),
    )
    else if is_disabled user.status
    then (err invalid_credentials, db)
    else let cleared = update_user user.id clear_failures db in
      let ((access, raw), issued) =
        issue_token_pair settings crypto user client none now fresh
          (update_user user.id (set_last_login now) cleared) in
      if has_mfa user.mfa_type
      then (ok mfa_required, cleared)
      else (ok (signed access raw), audited AuditAction.login_success (some user.id) issued)

-- The tables are those that the request leaves committed: a failed password is committed before the
-- error is raised.
pub login : Settings → Crypto → ℕ → ℕ → Client → ℕ → Fresh → Tx AuthDb Signed
unfolding login_user
login settings crypto email password client now fresh db =
    elim (first (λ (u : User). u.email == email) db.users) [
      | none ↦ (err invalid_credentials, audited AuditAction.login_failed none db)
      | some user ↦
          if is_locked now user
          then (err account_locked, db)
          else login_user settings crypto password client now fresh user db
    ]
