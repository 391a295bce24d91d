-- ===== src/Documents/Shares.antt =====
-- Links to a document for people outside the workspace (app/services/documents/shares.py). Instants
-- are seconds; the hash of a token is a parameter, and the tokens and ids drawn are arguments.
pub mod Access
mod Tests
use Prim.Native.String.{String}
use cofoundaz_api.Prelude.{
  ℕ, ◌+◌, ◌*◌, Bool, true, false, ◌&&◌, ◌||◌, Option, none, some, List, [], ◌∷◌, ◌++◌, ◌==◌, leb,
  is_some, if◌then◌else◌, first, where_all, update_where,
}
use cofoundaz_api.Documents.{ℤ, expiry}
use cofoundaz_api.Errors.{Result, ok, err, not_found}
use cofoundaz_api.Transaction.{Tx}

pub data ShareAccess : Type 0 where
  view comment : ShareAccess

pub record DocumentShare : Type 0 where
  pub id : ℕ
  pub startup_id : ℕ
  pub document_id : ℕ
  pub shared_by_id : Option ℕ
  pub email : String
  pub access_level : ShareAccess
  pub token_hash : ℕ
  pub expires_at : Option ℕ
  pub revoked_at : Option ℕ
  pub last_viewed_at : Option ℕ
  pub created_at : ℕ

-- The events `document.shared` and `document.share.revoked`, with the ids of their payloads.
pub data ShareEvent : Type 0 where
  shared : ℕ → ℕ → ℕ → ℕ → ShareEvent
  share_revoked : ℕ → ℕ → ShareEvent

pub record ShareDb : Type 0 where
  pub shares : List DocumentShare
  pub events : List ShareEvent

pub create_share :
    (ℕ → ℕ)
    → ℕ
    → ℕ
    → ℕ
    → String
    → ShareAccess
    → Option ℤ
    → ℕ
    → ℕ
    → ℕ
    → ShareDb
    → DocumentShare × ShareDb
create_share hash_token startup_id document_id shared_by_id email access_level expires_in_days raw
      new_id now db =
    let row : DocumentShare = record {
      id = new_id;
      startup_id = startup_id;
      document_id = document_id;
      shared_by_id = some shared_by_id;
      email = email;
      access_level = access_level;
      token_hash = hash_token raw;
      expires_at = expiry now expires_in_days;
      revoked_at = none;
      last_viewed_at = none;
      created_at = now;
    } in
    (
      row,
      record {
        shares = db.shares ++ row ∷ [];
        events = db.events ++ shared startup_id document_id new_id shared_by_id ∷ [];
      },
    )

abbrev pub set_revoked : ℕ → DocumentShare → DocumentShare
set_revoked now s = record s { revoked_at = some now }

pub revoke_share : DocumentShare → ℕ → ShareDb → ShareDb
revoke_share share now db = record {
  shares = update_where (λ (s : DocumentShare). s.id == share.id) (set_revoked now) db.shares;
  events = db.events ++ share_revoked share.startup_id share.id ∷ [];
}

abbrev pub is_past : ℕ → Option ℕ → Bool
is_past now none = false
is_past now (some t) = leb t now

-- `_is_expired`
abbrev pub is_expired : ℕ → DocumentShare → Bool
is_expired now s = is_past now s.expires_at

abbrev pub set_viewed : ℕ → DocumentShare → DocumentShare
set_viewed now s = record s { last_viewed_at = some now }

abbrev pub has_token : (ℕ → ℕ) → ℕ → DocumentShare → Bool
has_token hash_token token s = s.token_hash == hash_token token

abbrev pub is_closed : ℕ → DocumentShare → Bool
is_closed now s = is_some s.revoked_at || is_expired now s

-- The body of `open_shared` behind its query.
abbrev pub open_found : ℕ → ShareDb → Option DocumentShare → Result DocumentShare × ShareDb
open_found now db none = (err not_found, db)
open_found now db (some share) = if is_closed now share then (err not_found, db) else (
  ok (set_viewed now share),
  record db {
    shares = update_where (λ (s : DocumentShare). s.id == share.id) (set_viewed now) db.shares;
  },
)

pub open_shared : (ℕ → ℕ) → ℕ → ℕ → Tx ShareDb DocumentShare
open_shared hash_token token now db =
    open_found now db (first (has_token hash_token token) db.shares)

-- `_share`: 404 unless the row belongs to the document and the workspace.
pub find_share : ℕ → ℕ → ℕ → ShareDb → Result DocumentShare
find_share startup_id document_id share_id db =
    elim (first
      (λ (s : DocumentShare).
        (s.id == share_id) && ((s.document_id == document_id) && (s.startup_id == startup_id)))
      db.shares) [ none ↦ err not_found | some s ↦ ok s ]

pub data ShareStatus : Type 0 where
  revoked expired active : ShareStatus

-- `_status`
pub share_status : ℕ → DocumentShare → ShareStatus
share_status now s =
    if is_some s.revoked_at then revoked else if is_expired now s then expired else active
