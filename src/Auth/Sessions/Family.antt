-- ===== src/Auth/Sessions/Family.antt =====
-- Reuse of a refresh token, logout, and revocation of all sessions of a user.
use cofoundaz_api.Prelude.{
  ℕ, ◌≤◌, ◌≡◌, ◌≢◌, refl, ◌∙◌, inl, inr, Bool, false, some, List, [], ◌∷◌, ◌==◌, ◌&&◌, is_none,
  first, count, update_where, count-update, count-update_zero, Bool-cases, arith,
}
use cofoundaz_api.Errors.{err, unauthorized}
use cofoundaz_api.Transaction.{commit-err}
use cofoundaz_api.Auth.{AuthSession, AuthDb, Settings, Crypto, Fresh, Client}
use cofoundaz_api.Auth.Sessions.{
  set_rotated, set_revoked, has_hash, is_claimable, in_family, revoke_family, rotate_session,
  rotate_refresh, revoke_session, revoke_all_for_user, refresh, logout,
}
use cofoundaz_api.Auth.Sessions.Replay.{is_unused, IsSpent, IsKeyed, row_of-first, row_of-update}
use cofoundaz_api.Auth.Sessions.Steps.{History, History-IsSpent, refresh_spent}

module _ (settings : Settings) (crypto : Crypto) where
  reuse_result :
      (raw : ℕ) (client : Client) (now : ℕ) (fresh : Fresh) (db : AuthDb) (s : AuthSession)
      → first (has_hash (crypto.hash_token raw)) db.sessions ≡ some s
      → count (is_claimable s.id now) db.sessions ≡ 0
      → rotate_refresh settings crypto raw client now fresh db ≡ (
        err unauthorized,
        revoke_family settings crypto s.family_id now (record db {
          sessions = update_where (is_claimable s.id now) (set_rotated now) db.sessions;
        }),
      )
  unfolding rotate_refresh rotate_session
  reuse_result raw client now fresh db s known dead =
      rw (known, rotate_refresh) (rw (dead, rotate_session) refl)

-- A token whose session can no longer be claimed (rotated, revoked or expired) is refused by
-- `rotate_refresh`, which leaves no session of the token's family unrevoked in the open transaction.
pub rotate_refresh-reuse_revokes_family :
    (settings : Settings) (crypto : Crypto) (raw : ℕ) (client : Client) (now : ℕ) (fresh : Fresh)
    (db : AuthDb) (s : AuthSession)
    → first (has_hash (crypto.hash_token raw)) db.sessions ≡ some s
    → count (is_claimable s.id now) db.sessions ≡ 0
    → let (result, db') = rotate_refresh settings crypto raw client now fresh db in
      (result ≡ err unauthorized) × (count (in_family s.family_id) db'.sessions ≡ 0)
unfolding revoke_family
rotate_refresh-reuse_revokes_family settings crypto raw client now fresh db s known dead =
    rw (reuse_result settings crypto raw client now fresh db s known dead)
      (refl, count-update_zero (in_family s.family_id) (set_revoked now) _ (λ x e. ground arith))

-- When a token that is not claimable any more, a reused one among them, comes back: the service
-- revokes every session of its family; but through the refresh endpoint the call is refused and leaves
-- the tables exactly as they were, since the exception leaves before the commit.
pub refresh_reuse_keeps_family :
    (settings : Settings) (crypto : Crypto) (raw : ℕ) (client : Client) (now : ℕ) (fresh : Fresh)
    (db : AuthDb) (s : AuthSession)
    → first (has_hash (crypto.hash_token raw)) db.sessions ≡ some s
    → count (is_claimable s.id now) db.sessions ≡ 0
    → let (_, revoked) = rotate_refresh settings crypto raw client now fresh db in
      (count (in_family s.family_id) revoked.sessions ≡ 0)
      × (refresh settings crypto (some raw) client now fresh db ≡ (err unauthorized, db))
unfolding refresh
refresh_reuse_keeps_family settings crypto raw client now fresh db s known dead = (
  (rotate_refresh-reuse_revokes_family settings crypto raw client now fresh db s known dead).1,
  commit-err (rotate_refresh settings crypto raw client now fresh) db _ unauthorized
      (reuse_result settings crypto raw client now fresh db s known dead),
)

count-first :
    (h : ℕ) (rows : List AuthSession) (s : AuthSession)
    → first (has_hash h) rows ≡ some s
    → 1 ≤ count (λ x. x.id == s.id) rows
count-first h [] s e = cc
count-first h (x ∷ rows) s e = ground (arith, count-first h rows s)

unused-le :
    (id : ℕ) (rows : List AuthSession)
    → count (λ x. x.id == id) rows ≡ 0
    → count (is_unused id) rows ≡ 0
unused-le id [] e = refl
unused-le id (x ∷ rows) e = ground (arith, unused-le id rows)

-- The only row with the id of a revoked row is that row.
unused-known :
    (h : ℕ) (rows : List AuthSession) (s : AuthSession)
    → first (has_hash h) rows ≡ some s
    → is_none s.revoked_at ≡ false
    → count (λ x. x.id == s.id) rows ≤ 1
    → count (is_unused s.id) rows ≡ 0
unused-known h [] s e closed key = refl
unused-known h (x ∷ rows) s e closed key = elim (Bool-cases (has_hash h x)) [
  | inl hit ↦ ground (arith, unused-le s.id rows)
  | inr miss ↦ ground (arith, count-first h rows s, unused-known h rows s)
]

logout-IsSpent :
    (settings : Settings) (crypto : Crypto) (raw now : ℕ) (db : AuthDb) (s : AuthSession)
    → first (has_hash (crypto.hash_token raw)) db.sessions ≡ some s
    → IsKeyed db.sessions
    → IsSpent (crypto.hash_token raw) s.id (logout settings crypto (some raw) now db).sessions
unfolding logout revoke_session
logout-IsSpent settings crypto raw now db s known key =
    let found = row_of-first (crypto.hash_token raw) db.sessions s known in
    elim (Bool-cases (is_none s.revoked_at)) [
      | inl open_row ↦
          rw (known, revoke_session)
            (rw open_row (record {
              found =
                  row_of-update (crypto.hash_token raw) (λ x. x.id == s.id) (set_revoked now)
                    db.sessions (λ x. (refl, refl))
                  ∙ found;
              spent =
                  count-update (λ x. x.id == s.id) (is_unused s.id) (set_revoked now) db.sessions
                    (λ x e. ground arith) (λ x e. ground arith);
            }))
      | inr closed ↦
          rw (known, revoke_session)
            (rw closed (record {
              found = found;
              spent = unused-known (crypto.hash_token raw) db.sessions s known closed (key s.id);
            }))
    ]

-- After a logout with a token that leads to a session, the token is refused, at any later time and
-- whatever has happened since. Ids of sessions are unique.
pub logout_ends_session :
    (settings : Settings) (crypto : Crypto) (raw : ℕ) (client : Client) (now now' : ℕ)
    (fresh : Fresh) (db db' : AuthDb) (s : AuthSession)
    → first (has_hash (crypto.hash_token raw)) db.sessions ≡ some s
    → IsKeyed db.sessions
    → History settings crypto (logout settings crypto (some raw) now db) db'
    → refresh settings crypto (some raw) client now' fresh db' ≡ (err unauthorized, db')
logout_ends_session settings crypto raw client now now' fresh db db' s known key h =
    refresh_spent settings crypto raw s.id client now' fresh db' (
      History-IsSpent settings crypto (crypto.hash_token raw) s.id
        (logout-IsSpent settings crypto raw now db s known key) h)

abbrev pub is_live_of : ℕ → AuthSession → Bool
is_live_of user_id s = (s.user_id == user_id) && is_none s.revoked_at

-- Revoking all sessions of a user leaves that user none that is not revoked, reports how many there
-- were, and changes nothing for another user.
pub revoke_all_for_user_lem :
    (settings : Settings) (crypto : Crypto) (user_id other now : ℕ) (db : AuthDb)
    → other ≢ user_id
    → let (n, db') = revoke_all_for_user settings crypto user_id now db in
      (n ≡ count (is_live_of user_id) db.sessions)
      × (count (is_live_of user_id) db'.sessions ≡ 0)
      × (count (is_live_of other) db'.sessions ≡ count (is_live_of other) db.sessions)
unfolding revoke_all_for_user
revoke_all_for_user_lem settings crypto user_id other now db ne = (
  refl,
  count-update_zero (is_live_of user_id) (set_revoked now) db.sessions (λ x e. ground arith),
  untouched db.sessions,
)
  where
    untouched :
        (rows : List AuthSession)
        → count (is_live_of other) (update_where (is_live_of user_id) (set_revoked now) rows)
          ≡ count (is_live_of other) rows
    untouched [] = refl
    untouched (x ∷ rows) = ground (arith, untouched rows)
