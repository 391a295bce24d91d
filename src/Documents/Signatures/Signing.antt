-- ===== src/Documents/Signatures/Signing.antt =====
-- Creating requests, and what closes one for good (app/services/documents/signatures.py).
use Prim.Native.String.{String}
use mathlib.Core.Bool.{false≢true}
use cofoundaz_api.Prelude.{
  first-fits, All-first, first-update, ℕ, ◌+◌, ◌≡◌, ◌≢◌, refl, sym, ap, ◌∙◌, true, false, Option,
  some, List, [], ◌∷◌, ◌++◌, ◌==◌, inl, inr, is_none, first, count, count-append, update_where, All,
  All-append, Option-cases, arith, length,
}
use cofoundaz_api.Errors.{Result, ok, err, not_found, err-ne-ok}
use cofoundaz_api.Documents.{ℤ, SignatureRequest, SignatureSigner, SignatureDb, is_awaiting}
use cofoundaz_api.Documents.Signatures.{
  SignerInput, is_unsigned_of, set_signed, signer_rows, create_request, request_by_id, signable,
  complete_if_signed, record_signature, sign,
}
use cofoundaz_api.Documents.Signatures.Invariant.{Agrees, IsConsistent, has_token, sign-cases}

unsigned-new :
    (hash_token : ℕ → ℕ) (request_id position : ℕ) (items : List SignerInput)
    → count (is_unsigned_of request_id) (signer_rows hash_token request_id position items)
      ≡ length items
unfolding signer_rows
unsigned-new hash_token request_id position [] = refl
unsigned-new hash_token request_id position (i ∷ items) =
    ground (arith, unsigned-new hash_token request_id (position + 1) items)

unsigned-others :
    (hash_token : ℕ → ℕ) (id request_id position : ℕ) (items : List SignerInput)
    → id ≢ request_id
    → count (is_unsigned_of id) (signer_rows hash_token request_id position items) ≡ 0
unfolding signer_rows
unsigned-others hash_token id request_id position [] ne = refl
unsigned-others hash_token id request_id position (i ∷ items) ne =
    ground (arith, unsigned-others hash_token id request_id (position + 1) items ne)

-- New signer rows of another request change nothing for the requests that are there.
Agrees-append :
    (new_id : ℕ) (signers new : List SignatureSigner) (requests : List SignatureRequest)
    → ((id : ℕ) → id ≢ new_id → count (is_unsigned_of id) new ≡ 0)
    → count (λ r. r.id == new_id) requests ≡ 0
    → All (Agrees signers) requests
    → All (Agrees (signers ++ new)) requests
Agrees-append new_id signers new [] others fresh h = tt
Agrees-append new_id signers new (r ∷ requests) others fresh h =
    let same : count (is_unsigned_of r.id) (signers ++ new) ≡ count (is_unsigned_of r.id) signers =
      omega (arith, count-append (is_unsigned_of r.id) signers new, others r.id (ground arith)) in
    (rw same h.0, Agrees-append new_id signers new requests others (ground arith) h.1)

-- Creating a request keeps every request's status in agreement with its signers, whatever the outcome
-- of the call. The id drawn is new: no request row has it.
pub create_request-IsConsistent :
    (hash_token : ℕ → ℕ) (startup_id file_id created_by : ℕ) (title : String)
    (signers : List SignerInput) (expires_in_days : Option ℤ) (now new_id : ℕ) (db : SignatureDb)
    → count (λ r. r.id == new_id) db.requests ≡ 0
    → IsConsistent db
    → IsConsistent
        (create_request hash_token startup_id file_id created_by title signers expires_in_days now
          new_id db).1
unfolding create_request
create_request-IsConsistent hash_token startup_id file_id created_by title [] expires_in_days now
      new_id db new h =
    h
create_request-IsConsistent hash_token startup_id file_id created_by title (s ∷ signers)
      expires_in_days now new_id db new h =
    let rows = signer_rows hash_token new_id 0 (s ∷ signers) in
    let own = unsigned-new hash_token new_id 0 (s ∷ signers) in
    All-append (Agrees (db.signers ++ rows)) db.requests _
      (Agrees-append new_id db.signers rows db.requests
        (λ id ne. unsigned-others hash_token id new_id 0 (s ∷ signers) ne) new h)
      (
        (
          λ c. absurd (cc),
          λ a z. omega (arith, own, count-append (is_unsigned_of new_id) db.signers rows),
        ),
        tt,
      )

-- The row that a request's id leads to is closed: complete or cancelled.
abbrev pub IsClosed : ℕ → SignatureDb → Type 0
IsClosed id db = All (λ r. r.id ≡ id → is_awaiting r.status ≡ false) db.requests

closed-not_signable :
    (now : ℕ) (signer : SignatureSigner) (db : SignatureDb)
    → IsClosed signer.request_id db
    → signable now signer (request_by_id db signer.request_id) ≡ false
closed-not_signable now signer db closed =
    elim (Option-cases (request_by_id db signer.request_id)) [
      | inl missing ↦ rw missing refl
      | inr (r, found) ↦
          let shut =
            All-first (λ r. r.id ≡ signer.request_id → is_awaiting r.status ≡ false) _ db.requests r
              closed found in
          let mine =
            first-fits (λ (r : SignatureRequest). r.id == signer.request_id) db.requests r found in
          rw found (ground (arith, shut (ground arith)))
    ]

-- Once the request of a token's signer is complete or cancelled, the token is refused and nothing is
-- written.
pub sign_closed :
    (hash_token : ℕ → ℕ) (token : ℕ) (typed_name : String) (ip user_agent : Option String) (now : ℕ)
    (db : SignatureDb) (signer : SignatureSigner)
    → first (has_token hash_token token) db.signers ≡ some signer
    → IsClosed signer.request_id db
    → sign hash_token token (some typed_name) ip user_agent now db ≡ (err not_found, db)
sign_closed hash_token token typed_name ip user_agent now db signer known closed =
    elim (sign-cases hash_token token typed_name ip user_agent now db) [
      | inl e ↦ e
      | inr (other, found, allowed, e) ↦
          let same : other ≡ signer = ground arith in
          absurd (false≢true (sym (closed-not_signable now signer db closed) ∙ rw same at allowed))
    ]

record_signature-signers :
    (signer : SignatureSigner) (typed_name : String) (ip user_agent : Option String) (now : ℕ)
    (db : SignatureDb)
    → signable now signer (request_by_id db signer.request_id) ≡ true
    → (record_signature signer typed_name ip user_agent now db).1.signers
      ≡ update_where (λ s. s.id == signer.id) (set_signed now typed_name ip user_agent) db.signers
unfolding record_signature complete_if_signed
record_signature-signers signer typed_name ip user_agent now db allowed = ground arith

-- A token signs once: after a signature that was recorded, the same token is refused at any later
-- time and whatever is typed, and nothing is written.
pub sign_once :
    (hash_token : ℕ → ℕ) (token : ℕ) (typed_name typed_name' : String)
    (ip user_agent ip' user_agent' : Option String) (now now' : ℕ) (db db' : SignatureDb)
    → sign hash_token token (some typed_name) ip user_agent now db ≡ (ok tt, db')
    → sign hash_token token (some typed_name') ip' user_agent' now' db' ≡ (err not_found, db')
sign_once hash_token token typed_name typed_name' ip user_agent ip' user_agent' now now' db db'
      success =
    elim (sign-cases hash_token token typed_name ip user_agent now db) [
      | inl e ↦ absurd (err-ne-ok (ap (λ x. x.0) (sym e ∙ success)))
      | inr (signer, known, allowed, e) ↦
          elim (sign-cases hash_token token typed_name' ip' user_agent' now' db') [
            | inl refused ↦ refused
            | inr (again, found, allowed', _) ↦
                let rows =
                  record_signature-signers signer typed_name ip user_agent now db allowed in
                let wrote : db'.signers ≡ _ =
                  ap (λ (x : Result (Unit {0}) × SignatureDb). x.1.signers) (sym success ∙ e)
                  ∙ rows in
                let marked =
                  first-update (has_token hash_token token) (λ s. s.id == signer.id)
                    (set_signed now typed_name ip user_agent) db.signers signer (λ x. refl) known in
                let same : again ≡ set_signed now typed_name ip user_agent signer =
                  ground (arith, wrote, marked) in
                let spent : is_none again.signed_at ≡ false = rw same refl in
                absurd (false≢true (ground (arith, spent, allowed')))
          ]
    ]
