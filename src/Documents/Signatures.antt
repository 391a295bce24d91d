-- ===== src/Documents/Signatures.antt =====
-- Signature requests (app/services/documents/signatures.py, app/db/models/document.py) and the
-- public signing endpoint (app/api/v1/endpoints/documents.py). Instants are seconds; the hash of a
-- token is a parameter, and the tokens and ids drawn are arguments. Mail is sent by the callers. Each
-- operation runs with no other request beside it, although the source takes no lock for that.
pub mod Invariant
pub mod Signing
pub mod Remind
mod Tests
use cofoundaz_api.Documents.{
  ℤ, expiry, SignatureRequestStatus, awaiting, complete, cancelled, is_awaiting, SignatureRequest,
  SignatureSigner, SignatureEvent, requested, signature_cancelled, signature_completed,
  signature_signed, SignatureDb, publish,
}
use Prim.Native.String.{String}
use cofoundaz_api.Prelude.{
  ℕ, zero, suc, ◌+◌, ◌*◌, Bool, true, false, Option, none, some, List, [], ◌∷◌, ◌++◌, ◌==◌, ◌&&◌,
  not, leb, is_none, is_some, if◌then◌else◌, first, where_all, count, update_where, length,
  order_by,
}
use cofoundaz_api.Errors.{Result, ok, err, validation_error, not_found, signature_not_active}
use cofoundaz_api.Transaction.{Tx}

-- An item of the request's `signers`, with the token and the id drawn for it.
pub record SignerInput : Type 0 where
  pub email : String
  pub name : Option String
  pub raw : ℕ
  pub new_id : ℕ

pub signer_rows : (ℕ → ℕ) → ℕ → ℕ → List SignerInput → List SignatureSigner
signer_rows hash_token request_id position [] = []
signer_rows hash_token request_id position (item ∷ items) =
    record {
      id = item.new_id;
      request_id = request_id;
      email = item.email;
      name = item.name;
      token_hash = hash_token item.raw;
      position = position;
      signed_at = none;
      signed_name = none;
      signed_ip = none;
      signed_user_agent = none;
    }
    ∷ signer_rows hash_token request_id (position + 1) items

pub create_request :
    (ℕ → ℕ)
    → ℕ
    → ℕ
    → ℕ
    → String
    → List SignerInput
    → Option ℤ
    → ℕ
    → ℕ
    → Tx SignatureDb SignatureRequest
unfolding signer_rows
create_request hash_token startup_id file_id created_by title [] expires_in_days now new_id db =
    (err validation_error, db)
create_request hash_token startup_id file_id created_by title (s ∷ signers) expires_in_days now
      new_id db =
    let req : SignatureRequest = record {
      id = new_id;
      startup_id = startup_id;
      file_id = file_id;
      title = title;
      status = awaiting;
      created_by_id = some created_by;
      expires_at = expiry now expires_in_days;
      completed_at = none;
      cancelled_at = none;
    } in
    (
      ok req,
      publish (requested new_id) (record db {
        requests = db.requests ++ req ∷ [];
        signers = db.signers ++ signer_rows hash_token new_id 0 (s ∷ signers);
      }),
    )

pub get_request : ℕ → ℕ → SignatureDb → Result SignatureRequest
get_request startup_id request_id db =
    elim (first (λ (r : SignatureRequest). (r.id == request_id) && (r.startup_id == startup_id))
      db.requests) [ none ↦ err not_found | some r ↦ ok r ]

abbrev of_request : ℕ → SignatureSigner → Bool
of_request request_id s = s.request_id == request_id

abbrev pub is_unsigned_of : ℕ → SignatureSigner → Bool
is_unsigned_of request_id s = (s.request_id == request_id) && is_none s.signed_at

-- `_signers`
pub signers_of : SignatureDb → ℕ → List SignatureSigner
unfolding order_by
signers_of db request_id =
    order_by (λ (s : SignatureSigner). s.position) (where_all (of_request request_id) db.signers)

pub unsigned_signers : SignatureDb → ℕ → List SignatureSigner
unfolding signers_of
unsigned_signers db request_id = where_all (λ s. is_none s.signed_at) (signers_of db request_id)

abbrev pub is_expired : ℕ → SignatureRequest → Bool
is_expired now r = elim r.expires_at [ none ↦ false | some t ↦ leb t now ]

abbrev pub is_active : ℕ → SignatureRequest → Bool
is_active now r = is_awaiting r.status && not (is_expired now r)

abbrev pub set_token : ℕ → SignatureSigner → SignatureSigner
set_token hash s = record s { token_hash = hash }

-- The loop of `reissue_unsigned`, with the raw tokens that it draws, one for each signer.
pub rotate_tokens :
    (ℕ → ℕ) → List SignatureSigner → (ℕ → ℕ) → List SignatureSigner → List SignatureSigner
rotate_tokens hash_token [] raw_for rows = rows
rotate_tokens hash_token (s ∷ unsigned) raw_for rows =
    rotate_tokens hash_token unsigned raw_for
      (update_where (λ x. x.id == s.id) (set_token (hash_token (raw_for s.id))) rows)

-- The signers whose token was rotated. `raw_for` gives the token drawn for a signer's id.
pub reissue_unsigned :
    (ℕ → ℕ) → SignatureRequest → (ℕ → ℕ) → ℕ → Tx SignatureDb (List SignatureSigner)
unfolding unsigned_signers rotate_tokens
reissue_unsigned hash_token request raw_for now db =
    let unsigned = unsigned_signers db request.id in
    if is_active now request
    then (ok unsigned, record db { signers = rotate_tokens hash_token unsigned raw_for db.signers })
    else (err signature_not_active, db)

abbrev pub set_cancelled : ℕ → SignatureRequest → SignatureRequest
set_cancelled now r = record r { status = cancelled; cancelled_at = some now }

pub cancel_request : SignatureRequest → ℕ → Tx SignatureDb (Unit {0})
cancel_request request now db =
    if is_awaiting request.status
    then (
      ok tt,
      publish (signature_cancelled request.id) (record db {
        requests = update_where (λ r. r.id == request.id) (set_cancelled now) db.requests;
      }),
    )
    else (err signature_not_active, db)

-- `db.query(SignatureRequest).filter_by(id=...).one()`: the foreign key gives the row.
abbrev pub request_by_id : SignatureDb → ℕ → Option SignatureRequest
request_by_id db id = first (λ (r : SignatureRequest). r.id == id) db.requests

abbrev pub signable : ℕ → SignatureSigner → Option SignatureRequest → Bool
signable now signer none = false
signable now signer (some request) = is_none signer.signed_at && is_active now request

pub open_for_signing : (ℕ → ℕ) → ℕ → ℕ → SignatureDb → Result SignatureSigner
open_for_signing hash_token token now db =
    elim (first (λ (s : SignatureSigner). s.token_hash == hash_token token) db.signers) [
      | none ↦ err not_found
      | some signer ↦
          if signable now signer (request_by_id db signer.request_id)
          then ok signer
          else err not_found
    ]

abbrev pub set_signed :
    ℕ → String → Option String → Option String → SignatureSigner → SignatureSigner
set_signed now typed_name ip user_agent s = record s {
  signed_at = some now;
  signed_name = some typed_name;
  signed_ip = ip;
  signed_user_agent = user_agent;
}

abbrev pub set_complete : ℕ → SignatureRequest → SignatureRequest
set_complete now r = record r { status = complete; completed_at = some now }

-- The end of `record_signature`: `all(s.signed_at is not None for s in signers)`.
pub complete_if_signed : ℕ → ℕ → SignatureDb → SignatureDb
complete_if_signed request_id now db =
    if count (is_unsigned_of request_id) db.signers == 0
    then publish (signature_completed request_id) (record db {
      requests = update_where (λ r. r.id == request_id) (set_complete now) db.requests;
    })
    else db

pub record_signature :
    SignatureSigner → String → Option String → Option String → ℕ → Tx SignatureDb (Unit {0})
unfolding complete_if_signed
record_signature signer typed_name ip user_agent now db =
    let signed = record db {
      signers =
          update_where (λ s. s.id == signer.id) (set_signed now typed_name ip user_agent)
            db.signers;
    } in
    if signable now signer (request_by_id db signer.request_id)
    then (
      ok tt,
      complete_if_signed signer.request_id now
          (publish (signature_signed signer.request_id signer.id) signed),
    )
    else (err not_found, db)

-- The signing endpoint; `typed_name` is the stripped text, `none` if that is empty.
pub sign :
    (ℕ → ℕ) → ℕ → Option String → Option String → Option String → ℕ → Tx SignatureDb (Unit {0})
unfolding open_for_signing record_signature
sign hash_token token none ip user_agent now db = (err validation_error, db)
sign hash_token token (some typed_name) ip user_agent now db =
    elim (open_for_signing hash_token token now db) [
      | err e ↦ (err e, db)
      | ok signer ↦ record_signature signer typed_name ip user_agent now db
    ]

pub data DisplayStatus : Type 0 where
  expired : DisplayStatus
  stored : SignatureRequestStatus → DisplayStatus

pub request_status : ℕ → SignatureRequest → DisplayStatus
request_status now r = if is_awaiting r.status && is_expired now r then expired else stored r.status
