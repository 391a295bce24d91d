-- ===== src/Auth/Sessions.antt =====
-- Refresh sessions (app/services/auth/sessions.py) and the refresh and logout endpoints
-- (app/api/v1/endpoints/auth/sessions.py).
pub mod Replay
pub mod Steps
pub mod Family
mod Tests
use cofoundaz_api.Prelude.{
  ℕ, ◌+◌, ◌*◌, Bool, true, false, Option, none, some, List, [], ◌∷◌, ◌++◌, ◌==◌, ◌&&◌, leb, is_none,
  if◌then◌else◌, first, count, update_where,
}
use cofoundaz_api.Errors.{Result, ok, err, unauthorized}
use cofoundaz_api.Transaction.{Tx, commit_on_success}
use cofoundaz_api.Auth.{User, AuthSession, AuthDb, Settings, Crypto, Fresh, Client}

-- `family_id or uuid.uuid4()`
abbrev or_else : Option ℕ → ℕ → ℕ
or_else none d = d
or_else (some x) d = x

-- The updates of single columns.
abbrev pub set_rotated : ℕ → AuthSession → AuthSession
set_rotated now s = record s { rotated_at = some now }

abbrev pub set_revoked : ℕ → AuthSession → AuthSession
set_revoked now s = record s { revoked_at = some now }

abbrev pub has_hash : ℕ → AuthSession → Bool
has_hash h s = s.refresh_token_hash == h

-- The row is not rotated, not revoked and not expired, as the claim of `rotate_refresh` asks.
abbrev pub is_claimable : ℕ → ℕ → AuthSession → Bool
is_claimable id now s =
    (s.id == id) && (is_none s.rotated_at && (is_none s.revoked_at && leb now s.expires_at))

abbrev pub in_family : ℕ → AuthSession → Bool
in_family family_id s = (s.family_id == family_id) && is_none s.revoked_at

module _ (settings : Settings) (crypto : Crypto) where
  pub create_access_token : ℕ → ℕ → ℕ
  create_access_token subject now =
      crypto.encode_jwt (now + settings.access_token_expire_minutes * 60) subject

  -- The access token and the raw refresh token.
  unfoldable pub issue_token_pair : User → Client → Option ℕ → ℕ → Fresh → AuthDb → (ℕ × ℕ) × AuthDb
  unfolding create_access_token
  issue_token_pair user client family_id now fresh db =
      let session : AuthSession = record {
        id = fresh.id;
        user_id = user.id;
        refresh_token_hash = crypto.hash_token fresh.raw;
        family_id = or_else family_id fresh.family;
        ip = client.ip;
        user_agent = client.user_agent;
        expires_at = now + settings.refresh_token_expire_days * 86400;
        rotated_at = none;
        revoked_at = none;
      } in
      (
        (create_access_token user.id now, fresh.raw),
        record db { sessions = db.sessions ++ session ∷ [] },
      )

  pub revoke_family : ℕ → ℕ → AuthDb → AuthDb
  revoke_family family_id now db = record db {
    sessions = update_where (in_family family_id) (set_revoked now) db.sessions;
  }

  -- The part of `rotate_refresh` after the row of the token was found.
  pub rotate_session : AuthSession → Client → ℕ → Fresh → Tx AuthDb (ℕ × ℕ × User)
  unfolding revoke_family issue_token_pair
  rotate_session session client now fresh db =
      let claimed = count (is_claimable session.id now) db.sessions in
      let db' = record db {
        sessions = update_where (is_claimable session.id now) (set_rotated now) db.sessions;
      } in
      if claimed == 0
      then (err unauthorized, revoke_family session.family_id now db')
      else elim (first (λ (u : User). u.id == session.user_id) db'.users) [
        | none ↦ (err unauthorized, db')
        | some user ↦
            let ((access, raw), db'') =
              issue_token_pair user client (some session.family_id) now fresh db' in
            (ok (access, raw, user), db'')
      ]

  pub rotate_refresh : ℕ → Client → ℕ → Fresh → Tx AuthDb (ℕ × ℕ × User)
  unfolding rotate_session
  rotate_refresh raw_refresh client now fresh db =
      elim (first (has_hash (crypto.hash_token raw_refresh)) db.sessions) [
        | none ↦ (err unauthorized, db)
        | some session ↦ rotate_session session client now fresh db
      ]

  -- Revokes the session of the token if it has one that is not yet revoked.
  pub revoke_session : ℕ → ℕ → AuthDb → AuthDb
  revoke_session raw_refresh now db =
      elim (first (has_hash (crypto.hash_token raw_refresh)) db.sessions) [
        | none ↦ db
        | some session ↦
            if is_none session.revoked_at
            then record db {
              sessions = update_where (λ s. s.id == session.id) (set_revoked now) db.sessions;
            }
            else db
      ]

  -- The number of sessions revoked, and the tables.
  unfoldable pub revoke_all_for_user : ℕ → ℕ → AuthDb → ℕ × AuthDb
  revoke_all_for_user user_id now db =
      let of_user = λ (s : AuthSession). (s.user_id == user_id) && is_none s.revoked_at in
      (
        count of_user db.sessions,
        record db { sessions = update_where of_user (set_revoked now) db.sessions },
      )

  -- `_read_refresh` gives `none` for a missing or empty token. The call commits after the rotation
  -- and not if that raises.
  pub refresh : Option ℕ → Client → ℕ → Fresh → Tx AuthDb (ℕ × ℕ × User)
  unfolding rotate_refresh
  refresh none client now fresh db = (err unauthorized, db)
  refresh (some raw) client now fresh db =
      commit_on_success (rotate_refresh raw client now fresh) db

  pub logout : Option ℕ → ℕ → AuthDb → AuthDb
  unfolding revoke_session
  logout none now db = db
  logout (some raw) now db = revoke_session raw now db
