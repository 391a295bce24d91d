-- ===== src/Auth/Tokens/Once.antt =====
-- How often a token is consumed, and how many a user has (app/services/auth/tokens.py).
use cofoundaz_api.Prelude.{
  ℕ, ◌+◌, ◌≤◌, ◌≡◌, refl, ap, ◌∙◌, true, none, some, List, [], ◌∷◌, ◌==◌, count, update_where,
  count-update, count-update_zero, count-append, All, arith,
}
use cofoundaz_api.Errors.{ok, err, token_invalid}
use cofoundaz_api.Transaction.{commit_on_success}
use cofoundaz_api.Auth.{
  User, AuthToken, AuthTokenPurpose, email_verification, password_reset, AuthDb, Settings, Crypto,
  Fresh,
}
use cofoundaz_api.Auth.Sessions.{revoke_all_for_user, set_revoked}
use cofoundaz_api.Auth.Sessions.Family.{is_live_of}
use cofoundaz_api.Auth.Tokens.{
  same_purpose, set_consumed, is_unconsumed_of, is_consumable, invalidate_unconsumed_tokens,
  issue_auth_token, consume_auth_token, set_password, reset_user, reset,
}

consumed_none :
    (hash now now' : ℕ) (purpose : AuthTokenPurpose) (rows : List AuthToken)
    → now ≤ now'
    → count
        (is_consumable hash purpose now')
        (update_where (is_consumable hash purpose now) (set_consumed now) rows)
      ≡ 0
consumed_none hash now now' purpose rows later =
    count-update (is_consumable hash purpose now) (is_consumable hash purpose now')
      (set_consumed now) rows (λ x e. ground arith) (λ x e. ground arith)

-- A call that succeeds has consumed the rows of the token, and written nothing else.
consume_inversion :
    (crypto : Crypto) (purpose : AuthTokenPurpose) (raw now : ℕ) (db db' : AuthDb) (user : User)
    → consume_auth_token crypto purpose raw now db ≡ (ok user, db')
    → db' ≡ record db {
      tokens =
          update_where
            (is_consumable (crypto.hash_token raw) purpose now)
            (set_consumed now)
            db.tokens;
    }
unfolding consume_auth_token
consume_inversion crypto purpose raw now db db' user success = ground arith

-- No row to claim means a refusal that writes nothing.
consume_refused :
    (crypto : Crypto) (purpose : AuthTokenPurpose) (raw now : ℕ) (db : AuthDb)
    → count (is_consumable (crypto.hash_token raw) purpose now) db.tokens ≡ 0
    → consume_auth_token crypto purpose raw now db ≡ (err token_invalid, db)
unfolding consume_auth_token
consume_refused crypto purpose raw now db e = rw (e, consume_auth_token) refl

-- A token that was consumed is refused from then on, and the refusal writes nothing.
pub consume_auth_token_once :
    (crypto : Crypto) (purpose : AuthTokenPurpose) (raw now now' : ℕ) (db db' : AuthDb)
    (user : User)
    → consume_auth_token crypto purpose raw now db ≡ (ok user, db')
    → now ≤ now'
    → consume_auth_token crypto purpose raw now' db' ≡ (err token_invalid, db')
consume_auth_token_once crypto purpose raw now now' db db' user success later =
    let hash = crypto.hash_token raw in
    let wrote = consume_inversion crypto purpose raw now db db' user success in
    consume_refused crypto purpose raw now' db' (
      ap (λ (x : AuthDb). count (is_consumable hash purpose now') x.tokens) wrote
      ∙ consumed_none hash now now' purpose db.tokens later)

same_purpose_refl : (p : AuthTokenPurpose) → same_purpose p p ≡ true
same_purpose_refl email_verification = refl
same_purpose_refl password_reset = refl

abbrev issued_row : Crypto → User → AuthTokenPurpose → ℕ → ℕ → Fresh → AuthToken
issued_row crypto user purpose ttl now fresh = record {
  id = fresh.id;
  user_id = user.id;
  purpose = purpose;
  token_hash = crypto.hash_token fresh.raw;
  expires_at = now + ttl;
  consumed_at = none;
}

-- After `invalidate_unconsumed_tokens` and `issue_auth_token`, the user has exactly one unconsumed
-- token for the purpose.
pub issue_auth_token_leaves_one :
    (crypto : Crypto) (user : User) (purpose : AuthTokenPurpose) (ttl now : ℕ) (fresh : Fresh)
    (db : AuthDb)
    → let db' =
        (issue_auth_token crypto user purpose ttl now fresh
          (invalidate_unconsumed_tokens user purpose now db)).1 in
      count (is_unconsumed_of user.id purpose) db'.tokens ≡ 1
unfolding issue_auth_token invalidate_unconsumed_tokens
issue_auth_token_leaves_one crypto user purpose ttl now fresh db = ground (
  arith,
  count-append (is_unconsumed_of user.id purpose)
      (update_where (is_unconsumed_of user.id purpose) (set_consumed now) db.tokens)
      (issued_row crypto user purpose ttl now fresh ∷ []),
  count-update_zero (is_unconsumed_of user.id purpose) (set_consumed now) db.tokens
      (λ x e. ground arith),
  same_purpose_refl purpose,
)

-- What a reset that commits has done.
reset_inversion :
    (settings : Settings) (crypto : Crypto) (password token now : ℕ) (db db' : AuthDb) (user : User)
    → reset settings crypto password token now db ≡ (ok user, db')
    → (db₁ : AuthDb) × (consume_auth_token crypto password_reset token now db ≡ (ok user, db₁))
      × (db' ≡ reset_user settings crypto password now user db₁)
unfolding reset commit_on_success
reset_inversion settings crypto password token now db db' user success =
    ((consume_auth_token crypto password_reset token now db).1, ground arith, ground arith)

reset_user_writes :
    (settings : Settings) (crypto : Crypto) (password now : ℕ) (user : User) (db : AuthDb)
    → let db' = reset_user settings crypto password now user db in
      (count (is_live_of user.id) db'.sessions ≡ 0)
      × All (λ u. u.id ≡ user.id → u.password_hash ≡ some (crypto.hash_password password)) db'.users
      × (db'.tokens ≡ db.tokens)
unfolding reset_user revoke_all_for_user
reset_user_writes settings crypto password now user db = (
  count-update_zero (is_live_of user.id) (set_revoked now) db.sessions (λ x e. ground arith),
  passwords db.users,
  refl,
)
  where
    passwords :
        (us : List User)
        → All
            (λ u. u.id ≡ user.id → u.password_hash ≡ some (crypto.hash_password password))
            (update_where (λ u. u.id == user.id) (set_password (crypto.hash_password password)) us)
    passwords [] = tt
    passwords (u ∷ us) = (λ e. ground arith, passwords us)

-- A password reset that succeeds stores the hash of the new password for that user, leaves the user
-- no session that is not revoked, and uses the token up: a later reset with it is refused.
pub reset_outcome :
    (settings : Settings) (crypto : Crypto) (password password' token now now' : ℕ)
    (db db' : AuthDb) (user : User)
    → reset settings crypto password token now db ≡ (ok user, db')
    → now ≤ now'
    → (count (is_live_of user.id) db'.sessions ≡ 0)
      × All (λ u. u.id ≡ user.id → u.password_hash ≡ some (crypto.hash_password password)) db'.users
      × (reset settings crypto password' token now' db' ≡ (err token_invalid, db'))
unfolding reset commit_on_success
reset_outcome settings crypto password password' token now now' db db' user success later =
    let (db₁, consumed, wrote) =
      reset_inversion settings crypto password token now db db' user success in
    let (live, stored, kept) = reset_user_writes settings crypto password now user db₁ in
    let hash = crypto.hash_token token in
    let spent : count (is_consumable hash password_reset now') db'.tokens ≡ 0 =
      ap (λ (x : AuthDb). count (is_consumable hash password_reset now') x.tokens) wrote
      ∙ ap (λ (x : List AuthToken). count (is_consumable hash password_reset now') x) kept
      ∙ ap (λ (x : AuthDb). count (is_consumable hash password_reset now') x.tokens)
          (consume_inversion crypto password_reset token now db db₁ user consumed)
      ∙ consumed_none hash now now' password_reset db.tokens later in
    (
      rw wrote live,
      rw wrote stored,
      rw (consume_refused crypto password_reset token now' db' spent) refl,
    )
