-- ===== src/Auth/Sessions/Steps.antt =====
-- Histories of the session table, and a refresh token in them.
use cofoundaz_api.Prelude.{
  ℕ, ◌≡◌, ◌≢◌, refl, sym, ap, ◌∙◌, ◌⊎◌, inl, inr, Option, none, some, ◌==◌, is_none, first, count,
  update_where, Option-cases, Bool-cases, arith, subst,
}
use cofoundaz_api.Errors.{err-ne-ok, Result, ok, err, unauthorized}
use cofoundaz_api.Transaction.{commit-err, commit-ok}
use cofoundaz_api.Auth.{User, AuthSession, AuthDb, Settings, Crypto, Fresh, Client}
use cofoundaz_api.Auth.Sessions.{
  set_rotated, has_hash, is_claimable, issue_token_pair, revoke_family, rotate_session,
  rotate_refresh, revoke_session, revoke_all_for_user, refresh, logout,
}
use cofoundaz_api.Auth.Sessions.Replay.{
  is_unused, IsSpent, IsKeyed, IsNew, row_of-first, row_of-update, claimable-le, unused-claimed,
  IsSpent-rotate, IsSpent-revoke, IsSpent-append, IsNew-rotate,
}

module _ (settings : Settings) (crypto : Crypto) where
  -- What the endpoints do to the tables, with the ids that `uuid4` gives new.
  pub data Step : AuthDb → AuthDb → Type 0 where
    signed_in :
        (db : AuthDb) (user : User) (client : Client) (family : Option ℕ) (now : ℕ) (fresh : Fresh)
        → IsNew fresh.id db.sessions
        → Step db (issue_token_pair settings crypto user client family now fresh db).1
    refreshed :
        (db : AuthDb) (token : Option ℕ) (client : Client) (now : ℕ) (fresh : Fresh)
        → IsNew fresh.id db.sessions
        → Step db (refresh settings crypto token client now fresh db).1
    logged_out :
        (db : AuthDb) (token : Option ℕ) (now : ℕ) → Step db (logout settings crypto token now db)
    revoked_all :
        (db : AuthDb) (user_id now : ℕ)
        → Step db (revoke_all_for_user settings crypto user_id now db).1

  pub data History (first_db : AuthDb) : AuthDb → Type 0 where
    start : History first_db first_db
    followed_by :
        {before after : AuthDb}
        → History first_db before
        → Step before after
        → History first_db after

  abbrev claimed_db : AuthSession → ℕ → AuthDb → AuthDb
  claimed_db s now db = record db {
    sessions = update_where (is_claimable s.id now) (set_rotated now) db.sessions;
  }

  -- The result of a rotation that goes through.
  abbrev issued : User → Client → ℕ → ℕ → Fresh → AuthDb → Result (ℕ × ℕ × User) × AuthDb
  issued user client family_id now fresh db =
      let t = issue_token_pair settings crypto user client (some family_id) now fresh db in
      (ok (t.0.0, t.0.1, user), t.1)

  -- The three ways in which the rotation of a known session ends.
  rotate_session-cases :
      (s : AuthSession) (client : Client) (now : ℕ) (fresh : Fresh) (db : AuthDb)
      → (count (is_claimable s.id now) db.sessions ≡ 0)
          × (rotate_session settings crypto s client now fresh db ≡ (
            err unauthorized,
            revoke_family settings crypto s.family_id now (claimed_db s now db),
          ))
        ⊎ (rotate_session settings crypto s client now fresh db
            ≡ (err unauthorized, claimed_db s now db))
        ⊎ (count (is_claimable s.id now) db.sessions ≢ 0)
          × ((user : User) × (rotate_session settings crypto s client now fresh db
                ≡ issued user client s.family_id now fresh (claimed_db s now db)))
  unfolding rotate_session
  rotate_session-cases s client now fresh db =
      elim (Bool-cases (count (is_claimable s.id now) db.sessions == 0)) [
        | inl unclaimed ↦ inl (ground arith, rw (unclaimed, rotate_session) refl)
        | inr claimed ↦ elim (Option-cases (first (λ (u : User). u.id == s.user_id) db.users)) [
          | inl missing ↦
              inr (inl (rw (claimed, rotate_session) (rw (missing, rotate_session) refl)))
          | inr (user, known) ↦ inr (
              inr (
                ground arith,
                (user, rw (claimed, rotate_session) (rw (known, rotate_session) refl)),
              ))
        ]
      ]

  -- A call of the endpoint commits nothing, or it claims the token's session and issues a new one.
  refresh-cases :
      (raw : ℕ) (client : Client) (now : ℕ) (fresh : Fresh) (db : AuthDb)
      → (refresh settings crypto (some raw) client now fresh db ≡ (err unauthorized, db))
        ⊎ ((s : AuthSession) × (user : User) × (first (has_hash (crypto.hash_token raw)) db.sessions
              ≡ some s)
            × (count (is_claimable s.id now) db.sessions ≢ 0)
            × (refresh settings crypto (some raw) client now fresh db
                ≡ issued user client s.family_id now fresh (claimed_db s now db)))
  unfolding refresh rotate_refresh
  refresh-cases raw client now fresh db =
      let call = rotate_refresh settings crypto raw client now fresh in
      elim (Option-cases (first (has_hash (crypto.hash_token raw)) db.sessions)) [
        | inl unknown ↦ inl (commit-err call db db unauthorized (rw (unknown, rotate_refresh) refl))
        | inr (s, known) ↦ elim (rotate_session-cases s client now fresh db) [
          | inl (_, e) ↦ inl (commit-err call db _ unauthorized (step s known ∙ e))
          | inr (inl e) ↦ inl (commit-err call db _ unauthorized (step s known ∙ e))
          | inr (inr (claimed, (user, e))) ↦
              inr (s, user, known, claimed, commit-ok call db _ _ (step s known ∙ e))
        ]
      ]
    where
      step :
          (s : AuthSession)
          → first (has_hash (crypto.hash_token raw)) db.sessions ≡ some s
          → rotate_refresh settings crypto raw client now fresh db
            ≡ rotate_session settings crypto s client now fresh db
      step s known = rw (known, rotate_refresh) refl

  Step-IsSpent :
      (h id : ℕ) {t u : AuthDb} → Step t u → IsSpent h id t.sessions → IsSpent h id u.sessions
  unfolding issue_token_pair refresh logout revoke_session revoke_all_for_user
  Step-IsSpent h id (signed_in db user client family now fresh new) s =
      IsSpent-append h id db.sessions _ s new
  Step-IsSpent h id (refreshed db none client now fresh new) s = s
  Step-IsSpent h id (refreshed db (some raw) client now fresh new) s =
      elim (refresh-cases raw client now fresh db) [
        | inl e ↦ rw e s
        | inr (row, user, known, claimed, e) ↦ rw e (
            IsSpent-append h id (claimed_db row now db).sessions _
              (IsSpent-rotate h id now (is_claimable row.id now) db.sessions s)
              (IsNew-rotate fresh.id now (is_claimable row.id now) db.sessions new))
      ]
  Step-IsSpent h id (logged_out db none now) s = s
  Step-IsSpent h id (logged_out db (some raw) now) s =
      elim (Option-cases (first (has_hash (crypto.hash_token raw)) db.sessions)) [
        | inl unknown ↦ rw (unknown, revoke_session) s
        | inr (row, known) ↦ elim (Bool-cases (is_none row.revoked_at)) [
          | inl open_row ↦
              rw (known, revoke_session)
                (rw open_row (IsSpent-revoke h id now (λ x. x.id == row.id) db.sessions s))
          | inr closed ↦ rw (known, revoke_session) (rw closed s)
        ]
      ]
  Step-IsSpent h id (revoked_all db user_id now) s = IsSpent-revoke h id now _ db.sessions s

  pub History-IsSpent :
      (h id : ℕ) {t u : AuthDb} → IsSpent h id t.sessions → History t u → IsSpent h id u.sessions
  History-IsSpent h id s start = s
  History-IsSpent h id s (followed_by p st) = Step-IsSpent h id st (History-IsSpent h id s p)

  -- A spent token is refused, and its call leaves the committed tables as they are.
  pub refresh_spent :
      (raw id : ℕ) (client : Client) (now : ℕ) (fresh : Fresh) (db : AuthDb)
      → IsSpent (crypto.hash_token raw) id db.sessions
      → refresh settings crypto (some raw) client now fresh db ≡ (err unauthorized, db)
  refresh_spent raw id client now fresh db s = elim (refresh-cases raw client now fresh db) [
    | inl e ↦ e
    | inr (row, user, known, claimed, e) ↦
        let same : row.id ≡ id =
          cc (row_of-first (crypto.hash_token raw) db.sessions row known, s.found) in
        absurd (
          claimed (
            claimable-le row.id now db.sessions
              (subst (λ i. count (is_unused i) db.sessions ≡ 0) (sym same) s.spent)))
  ]

  -- The token of a call that succeeded is spent.
  refresh-IsSpent :
      (raw : ℕ) (client : Client) (now : ℕ) (fresh : Fresh) (db db' : AuthDb) (r : ℕ × ℕ × User)
      → IsKeyed db.sessions
      → IsNew fresh.id db.sessions
      → refresh settings crypto (some raw) client now fresh db ≡ (ok r, db')
      → (id : ℕ) × IsSpent (crypto.hash_token raw) id db'.sessions
  unfolding issue_token_pair
  refresh-IsSpent raw client now fresh db db' r key new success =
      elim (refresh-cases raw client now fresh db) [
        | inl e ↦ absurd (err-ne-ok (ap (λ x. x.0) (sym e ∙ success)))
        | inr (row, user, known, claimed, e) ↦ (
          row.id,
          subst
              (λ (x : Result (ℕ × ℕ × User) × AuthDb).
                IsSpent (crypto.hash_token raw) row.id x.1.sessions)
              (sym e ∙ success)
              (IsSpent-append (crypto.hash_token raw) row.id (claimed_db row now db).sessions _
                (record {
                  found =
                      row_of-update (crypto.hash_token raw) (is_claimable row.id now)
                        (set_rotated now) db.sessions (λ x. (refl, refl))
                      ∙ row_of-first (crypto.hash_token raw) db.sessions row known;
                  spent = unused-claimed row.id now db.sessions (key row.id) claimed;
                })
                (IsNew-rotate fresh.id now (is_claimable row.id now) db.sessions new)),
        )
      ]

-- A refresh token is accepted once: after a call that succeeded, and whatever sign-ins, refreshes,
-- logouts and revocations follow, a call with the same token is refused at any later time. Ids are
-- unique, and `uuid4` gives ids that no row has.
pub refresh_once :
    (settings : Settings) (crypto : Crypto) (raw : ℕ) (client client' : Client) (now now' : ℕ)
    (fresh fresh' : Fresh) (db db' db'' : AuthDb) (r : ℕ × ℕ × User)
    → IsKeyed db.sessions
    → IsNew fresh.id db.sessions
    → refresh settings crypto (some raw) client now fresh db ≡ (ok r, db')
    → History settings crypto db' db''
    → refresh settings crypto (some raw) client' now' fresh' db'' ≡ (err unauthorized, db'')
refresh_once settings crypto raw client client' now now' fresh fresh' db db' db'' r key new success
      h =
    let (id, spent) =
      refresh-IsSpent settings crypto raw client now fresh db db' r key new success in
    refresh_spent settings crypto raw id client' now' fresh' db''
      (History-IsSpent settings crypto (crypto.hash_token raw) id spent h)
