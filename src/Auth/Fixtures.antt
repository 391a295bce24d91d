-- ===== src/Auth/Fixtures.antt =====
-- A user and settings that the tests of the authentication modules share.
use cofoundaz_api.Prelude.{ℕ, ◌+◌, none, some, [], ◌∷◌, ◌==◌}
use cofoundaz_api.Auth.{
  User, UserStatus, MfaType, AuthSession, AuthDb, Settings, Crypto, Fresh, Client,
}

abbrev pub settings : Settings
settings = record {
  access_token_expire_minutes = 15;
  refresh_token_expire_days = 7;
  login_max_fails = 3;
  login_lockout_minutes = 15;
}

abbrev pub crypto : Crypto
crypto = record {
  hash_token = λ raw. raw + 1000;
  encode_jwt = λ expiry subject. expiry + subject;
  verify_password = λ password hash. hash == (password + 5);
  hash_password = λ password. password + 5;
}

abbrev pub ada : User
ada = record {
  id = 1;
  email = 50;
  password_hash = some 47;
  status = UserStatus.active;
  failed_login_count = 0;
  locked_until = none;
  mfa_type = MfaType.off;
  mfa_secret = none;
  last_login_at = none;
}

abbrev pub browser : Client
browser = record { ip = none; user_agent = none }

abbrev pub draw : ℕ → Fresh
draw n = record { raw = n; id = n; family = n }

abbrev pub db : AuthDb
db = record { users = ada ∷ []; sessions = []; tokens = []; audit = [] }

-- The session of the raw token 20, in the family 20.
abbrev pub session : AuthSession
session = record {
  id = 20;
  user_id = 1;
  refresh_token_hash = 1020;
  family_id = 20;
  ip = none;
  user_agent = none;
  expires_at = 900;
  rotated_at = none;
  revoked_at = none;
}

abbrev pub signed_in : AuthDb
signed_in = record db { sessions = session ∷ [] }
