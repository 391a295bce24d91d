-- ===== src/Auth/Tokens.antt =====
-- Single-use tokens for e-mail verification and password reset (app/services/auth/tokens.py), and
-- the reset endpoint (app/api/v1/endpoints/auth/password.py) after its check of the password.
pub mod Once
mod Tests
use cofoundaz_api.Prelude.{
  ℕ, ◌+◌, Bool, true, false, Option, none, some, List, [], ◌∷◌, ◌++◌, ◌==◌, ◌&&◌, leb, is_none,
  if◌then◌else◌, first, count, update_where,
}
use cofoundaz_api.Errors.{Result, ok, err, token_invalid}
use cofoundaz_api.Transaction.{Tx, commit_on_success}
use cofoundaz_api.Auth.{
  User, AuthToken, AuthTokenPurpose, email_verification, password_reset, AuthDb, Settings, Crypto,
  Fresh, AuditAction,
}
use cofoundaz_api.Auth.Sessions.{revoke_all_for_user}

abbrev pub same_purpose : AuthTokenPurpose → AuthTokenPurpose → Bool
same_purpose email_verification email_verification = true
same_purpose password_reset password_reset = true
same_purpose _ _ = false

abbrev pub set_consumed : ℕ → AuthToken → AuthToken
set_consumed now t = record t { consumed_at = some now }

abbrev pub is_unconsumed_of : ℕ → AuthTokenPurpose → AuthToken → Bool
is_unconsumed_of user_id purpose t =
    (t.user_id == user_id) && (same_purpose t.purpose purpose && is_none t.consumed_at)

abbrev is_token : ℕ → AuthTokenPurpose → AuthToken → Bool
is_token hash purpose t = (t.token_hash == hash) && same_purpose t.purpose purpose

-- The filter of the atomic claim.
abbrev pub is_consumable : ℕ → AuthTokenPurpose → ℕ → AuthToken → Bool
is_consumable hash purpose now t =
    is_token hash purpose t && (is_none t.consumed_at && leb now t.expires_at)

pub invalidate_unconsumed_tokens : User → AuthTokenPurpose → ℕ → AuthDb → AuthDb
invalidate_unconsumed_tokens user purpose now db = record db {
  tokens = update_where (is_unconsumed_of user.id purpose) (set_consumed now) db.tokens;
}

-- The raw token, and the tables.
pub issue_auth_token : Crypto → User → AuthTokenPurpose → ℕ → ℕ → Fresh → AuthDb → ℕ × AuthDb
issue_auth_token crypto user purpose ttl now fresh db =
    let token : AuthToken = record {
      id = fresh.id;
      user_id = user.id;
      purpose = purpose;
      token_hash = crypto.hash_token fresh.raw;
      expires_at = now + ttl;
      consumed_at = none;
    } in
    (fresh.raw, record db { tokens = db.tokens ++ token ∷ [] })

-- `db.query(User).filter(User.id == row.user_id).first() if row else None`
abbrev owner_of : Option AuthToken → List User → Option User
owner_of none users = none
owner_of (some t) users = first (λ u. u.id == t.user_id) users

abbrev user_or_invalid : Option User → AuthDb → Result User × AuthDb
user_or_invalid none db = (err token_invalid, db)
user_or_invalid (some user) db = (ok user, db)

pub consume_auth_token : Crypto → AuthTokenPurpose → ℕ → ℕ → Tx AuthDb User
consume_auth_token crypto purpose raw now db =
    let hash = crypto.hash_token raw in
    let claimed = count (is_consumable hash purpose now) db.tokens in
    let db' = record db {
      tokens = update_where (is_consumable hash purpose now) (set_consumed now) db.tokens;
    } in
    let row = first (is_token hash purpose) db'.tokens in
    if claimed == 0 then (err token_invalid, db) else user_or_invalid (owner_of row db'.users) db'

abbrev pub set_password : ℕ → User → User
set_password hashed u = record u { password_hash = some hashed }

-- What `reset` does with the user whose token was consumed.
pub reset_user : Settings → Crypto → ℕ → ℕ → User → AuthDb → AuthDb
reset_user settings crypto password now user db =
    let db' = record db {
      users =
          update_where (λ u. u.id == user.id) (set_password (crypto.hash_password password))
            db.users;
    } in
    let (_, db'') = revoke_all_for_user settings crypto user.id now db' in
    record db'' { audit = db''.audit ++ (AuditAction.password_reset_done, some user.id) ∷ [] }

pub reset : Settings → Crypto → ℕ → ℕ → ℕ → Tx AuthDb User
unfolding consume_auth_token reset_user
reset settings crypto password token now = commit_on_success (λ db.
    let (result, db') = consume_auth_token crypto password_reset token now db in
    elim result [
      | ok user ↦ (ok user, reset_user settings crypto password now user db')
      | err e ↦ (err e, db')
    ])
