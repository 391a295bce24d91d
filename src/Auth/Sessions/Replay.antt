-- ===== src/Auth/Sessions/Replay.antt =====
-- A refresh token that was used, in the session table (app/services/auth/sessions.py).
use cofoundaz_api.Prelude.{
  ℕ, ◌≤◌, ◌≡◌, ◌≢◌, refl, ◌∙◌, inl, inr, Bool, Option, none, some, List, [], ◌∷◌, ◌++◌, ◌==◌, ◌&&◌,
  is_none, if◌then◌else◌, first, count, update_where, count-update_none, count-append, Bool-cases,
  arith,
}
use cofoundaz_api.Auth.{AuthSession}
use cofoundaz_api.Auth.Sessions.{set_rotated, set_revoked, has_hash, is_claimable}

-- The id of the row that a token's hash leads to.
abbrev pub row_of : ℕ → List AuthSession → Option ℕ
row_of h [] = none
row_of h (s ∷ rows) = if has_hash h s then some s.id else row_of h rows

-- The row was neither rotated nor revoked.
abbrev pub is_unused : ℕ → AuthSession → Bool
is_unused id s = (s.id == id) && (is_none s.rotated_at && is_none s.revoked_at)

-- The hash leads to a row, and that row has been rotated or revoked.
pub record IsSpent (h id : ℕ) (rows : List AuthSession) : Type 0 where
  pub found : row_of h rows ≡ some id
  pub spent : count (is_unused id) rows ≡ 0

pub row_of-first :
    (h : ℕ) (rows : List AuthSession) (s : AuthSession)
    → first (has_hash h) rows ≡ some s
    → row_of h rows ≡ some s.id
row_of-first h [] s e = cc
row_of-first h (x ∷ rows) s e = ground (arith, row_of-first h rows s)

pub row_of-update :
    (h : ℕ) (p : AuthSession → Bool) (f : AuthSession → AuthSession) (rows : List AuthSession)
    → ((x : AuthSession) → ((f x).id ≡ x.id) × ((f x).refresh_token_hash ≡ x.refresh_token_hash))
    → row_of h (update_where p f rows) ≡ row_of h rows
row_of-update h p f [] same = refl
row_of-update h p f (x ∷ rows) same = ground (arith, same x, row_of-update h p f rows same)

row_of-append :
    (h id : ℕ) (rows new : List AuthSession)
    → row_of h rows ≡ some id
    → row_of h (rows ++ new) ≡ some id
row_of-append h id [] new e = cc
row_of-append h id (x ∷ rows) new e = ground (arith, row_of-append h id rows new)

pub claimable-le :
    (id now : ℕ) (rows : List AuthSession)
    → count (is_unused id) rows ≡ 0
    → count (is_claimable id now) rows ≡ 0
claimable-le id now [] h = refl
claimable-le id now (x ∷ rows) h = ground (arith, claimable-le id now rows)

-- The id is a primary key.
abbrev pub IsKeyed : List AuthSession → Type 0
IsKeyed rows = (id : ℕ) → count (λ s. s.id == id) rows ≤ 1

-- `uuid4` gave an id that no row has.
abbrev pub IsNew : ℕ → List AuthSession → Type 0
IsNew id rows = count (λ s. s.id == id) rows ≡ 0

unused-le-id :
    (id : ℕ) (p : AuthSession → Bool) (now : ℕ) (rows : List AuthSession)
    → count (λ s. s.id == id) rows ≡ 0
    → count (is_unused id) (update_where p (set_rotated now) rows) ≡ 0
unused-le-id id p now [] h = refl
unused-le-id id p now (x ∷ rows) h = ground (arith, unused-le-id id p now rows)

claimable-le-id :
    (id now : ℕ) (rows : List AuthSession)
    → count (λ s. s.id == id) rows ≡ 0
    → count (is_claimable id now) rows ≡ 0
claimable-le-id id now [] h = refl
claimable-le-id id now (x ∷ rows) h = ground (arith, claimable-le-id id now rows)

-- The row that was claimed is spent, as no other row has its id.
pub unused-claimed :
    (id now : ℕ) (rows : List AuthSession)
    → count (λ s. s.id == id) rows ≤ 1
    → count (is_claimable id now) rows ≢ 0
    → count (is_unused id) (update_where (is_claimable id now) (set_rotated now) rows) ≡ 0
unused-claimed id now [] key some_row = absurd (some_row refl)
unused-claimed id now (x ∷ rows) key some_row = elim (Bool-cases (x.id == id)) [
  | inl hit ↦
      ground (arith, unused-le-id id (is_claimable id now) now rows, claimable-le-id id now rows)
  | inr miss ↦ ground (arith, unused-claimed id now rows)
]

IsNew-ne :
    (h id new : ℕ) (rows : List AuthSession) → row_of h rows ≡ some id → IsNew new rows → new ≢ id
IsNew-ne h id new [] found h0 = cc
IsNew-ne h id new (x ∷ rows) found h0 = ground (arith, IsNew-ne h id new rows)

-- Setting a column of some rows, to a value that is no `None`, keeps a spent token spent.
pub IsSpent-rotate :
    (h id now : ℕ) (p : AuthSession → Bool) (rows : List AuthSession)
    → IsSpent h id rows
    → IsSpent h id (update_where p (set_rotated now) rows)
IsSpent-rotate h id now p rows s = record {
  found = row_of-update h p (set_rotated now) rows (λ x. (refl, refl)) ∙ s.found;
  spent = count-update_none p (is_unused id) (set_rotated now) rows (λ x e. ground arith) s.spent;
}

pub IsSpent-revoke :
    (h id now : ℕ) (p : AuthSession → Bool) (rows : List AuthSession)
    → IsSpent h id rows
    → IsSpent h id (update_where p (set_revoked now) rows)
IsSpent-revoke h id now p rows s = record {
  found = row_of-update h p (set_revoked now) rows (λ x. (refl, refl)) ∙ s.found;
  spent = count-update_none p (is_unused id) (set_revoked now) rows (λ x e. ground arith) s.spent;
}

pub IsSpent-append :
    (h id : ℕ) (rows : List AuthSession) (new : AuthSession)
    → IsSpent h id rows
    → IsNew new.id rows
    → IsSpent h id (rows ++ new ∷ [])
IsSpent-append h id rows new s fresh = record {
  found = row_of-append h id rows (new ∷ []) s.found;
  spent = ground (
    arith,
    count-append (is_unused id) rows (new ∷ []),
    IsNew-ne h id new.id rows s.found fresh,
    s.spent,
  );
}

-- Setting a column of some rows leaves the ids.
pub IsNew-rotate :
    (id now : ℕ) (p : AuthSession → Bool) (rows : List AuthSession)
    → IsNew id rows
    → IsNew id (update_where p (set_rotated now) rows)
IsNew-rotate id now p rows new =
    count-update_none p (λ s. s.id == id) (set_rotated now) rows (λ x e. ground arith) new
