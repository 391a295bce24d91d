-- ===== src/Auth.antt =====
-- The authentication tables (app/db/models/auth.py, app/db/models/user.py), the settings read
-- (app/core/config.py), and what comes from outside the repository: the hash, the token encoder and
-- the password check of `Crypto`, and the random values of `Fresh`. Instants are seconds.
pub mod Sessions
pub mod Tokens
pub mod Login
pub mod Mfa
mod Fixtures
use cofoundaz_api.Prelude.{ℕ, Option, List, Bool}

pub data UserStatus : Type 0 where
  pending_verification active locked disabled : UserStatus

pub data MfaType : Type 0 where
  off totp sms : MfaType

pub record User : Type 0 where
  pub id : ℕ
  pub email : ℕ
  pub password_hash : Option ℕ
  pub status : UserStatus
  pub failed_login_count : ℕ
  pub locked_until : Option ℕ
  pub mfa_type : MfaType
  pub mfa_secret : Option ℕ
  pub last_login_at : Option ℕ

pub record AuthSession : Type 0 where
  pub id : ℕ
  pub user_id : ℕ
  pub refresh_token_hash : ℕ
  pub family_id : ℕ
  pub ip : Option ℕ
  pub user_agent : Option ℕ
  pub expires_at : ℕ
  pub rotated_at : Option ℕ
  pub revoked_at : Option ℕ

pub data AuthTokenPurpose : Type 0 where
  email_verification password_reset : AuthTokenPurpose

pub record AuthToken : Type 0 where
  pub id : ℕ
  pub user_id : ℕ
  pub purpose : AuthTokenPurpose
  pub token_hash : ℕ
  pub expires_at : ℕ
  pub consumed_at : Option ℕ

-- A row that `write_audit` adds (app/platform/audit.py).
pub data AuditAction : Type 0 where
  login_failed login_success password_reset_done : AuditAction

pub record AuthDb : Type 0 where
  pub users : List User
  pub sessions : List AuthSession
  pub tokens : List AuthToken
  pub audit : List (AuditAction × Option ℕ)

pub record Settings : Type 0 where
  pub access_token_expire_minutes : ℕ
  pub refresh_token_expire_days : ℕ
  pub login_max_fails : ℕ
  pub login_lockout_minutes : ℕ

-- `hashlib.sha256`, `jwt.encode` of an expiry and a subject, `bcrypt.checkpw` and `bcrypt.hashpw`.
pub record Crypto : Type 0 where
  pub hash_token : ℕ → ℕ
  pub encode_jwt : ℕ → ℕ → ℕ
  pub verify_password : ℕ → ℕ → Bool
  pub hash_password : ℕ → ℕ

-- What one call draws from `secrets` and `uuid.uuid4`.
pub record Fresh : Type 0 where
  pub raw : ℕ
  pub id : ℕ
  pub family : ℕ

-- Where a request comes from.
pub record Client : Type 0 where
  pub ip : Option ℕ
  pub user_agent : Option ℕ
