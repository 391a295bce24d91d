-- ===== src/Documents/Signatures/Invariant.antt =====
-- The status of a request against its signers (app/services/documents/signatures.py).
use Prim.Native.String.{String}
use cofoundaz_api.Prelude.{
  ℕ, ◌≤◌, ◌≡◌, ◌≢◌, refl, Bool, true, Option, none, some, List, [], ◌∷◌, ◌==◌, inl, inr, ◌⊎◌, first,
  count, count-update_none, update_where, All, All-update, Bool-cases, Option-cases, arith,
}
use cofoundaz_api.Errors.{ok, err, not_found}
use cofoundaz_api.Documents.{
  awaiting, complete, SignatureRequest, SignatureSigner, SignatureDb, is_awaiting,
}
use cofoundaz_api.Documents.Signatures.{
  is_unsigned_of, set_signed, set_complete, set_cancelled, cancel_request, request_by_id, signable,
  open_for_signing, complete_if_signed, record_signature, sign,
}

-- The status of a request, against the number of its signers that have not signed.
abbrev pub Agrees : List SignatureSigner → SignatureRequest → Type 0
Agrees signers r =
    (r.status ≡ complete → count (is_unsigned_of r.id) signers ≡ 0)
    × (r.status ≡ awaiting → count (is_unsigned_of r.id) signers ≢ 0)

abbrev pub IsConsistent : SignatureDb → Type 0
IsConsistent db = All (Agrees db.signers) db.requests

-- Ids of signers are unique.
abbrev pub IsKeyed : List SignatureSigner → Type 0
IsKeyed signers = (id : ℕ) → count (λ s. s.id == id) signers ≤ 1

absent-All :
    (P : SignatureSigner → Type 0) (id : ℕ) (signers : List SignatureSigner)
    → count (λ s. s.id == id) signers ≡ 0
    → All (λ s. s.id ≡ id → P s) signers
absent-All P id [] h = tt
absent-All P id (s ∷ signers) h =
    (λ e. absurd (ground arith), absent-All P id signers (ground arith))

first-present :
    (p : SignatureSigner → Bool) (signers : List SignatureSigner) (s : SignatureSigner)
    → first p signers ≡ some s
    → 1 ≤ count (λ x. x.id == s.id) signers
first-present p [] s e = cc
first-present p (x ∷ signers) s e = ground (arith, first-present p signers s)

-- All rows with the id of a row that was found belong to its request.
owner :
    (p : SignatureSigner → Bool) (signers : List SignatureSigner) (s : SignatureSigner)
    → first p signers ≡ some s
    → count (λ x. x.id == s.id) signers ≤ 1
    → All (λ x. x.id ≡ s.id → x.request_id ≡ s.request_id) signers
owner p [] s e key = tt
owner p (x ∷ signers) s e key = elim (Bool-cases (p x)) [
  | inl hit ↦ (
    λ same. ground arith,
    absent-All (λ y. y.request_id ≡ s.request_id) s.id signers (ground arith),
  )
  | inr miss ↦ (
    λ same. absurd (ground (arith, first-present p signers s)),
    owner p signers s (ground arith) (ground arith),
  )
]

module _ (now : ℕ) (typed_name : String) (ip user_agent : Option String)
    (signer : SignatureSigner) where
  abbrev signed_rows : List SignatureSigner → List SignatureSigner
  signed_rows = update_where (λ s. s.id == signer.id) (set_signed now typed_name ip user_agent)

  -- Another request's count stays.
  unsigned_other :
      (id : ℕ) (signers : List SignatureSigner)
      → id ≢ signer.request_id
      → All (λ x. x.id ≡ signer.id → x.request_id ≡ signer.request_id) signers
      → count (is_unsigned_of id) (signed_rows signers) ≡ count (is_unsigned_of id) signers
  unsigned_other id [] ne h = refl
  unsigned_other id (s ∷ signers) ne h = ground (arith, h.0, unsigned_other id signers ne h.1)

  -- A count of zero stays zero.
  unsigned_zero :
      (id : ℕ) (signers : List SignatureSigner)
      → count (is_unsigned_of id) signers ≡ 0
      → count (is_unsigned_of id) (signed_rows signers) ≡ 0
  unsigned_zero id signers h =
      count-update_none (λ s. s.id == signer.id) (is_unsigned_of id)
        (set_signed now typed_name ip user_agent) signers (λ x e. ground arith) h

  -- The requests that are left alone still agree, if the signer's own still has someone to sign.
  Agrees-after :
      (r : SignatureRequest) (signers : List SignatureSigner)
      → All (λ x. x.id ≡ signer.id → x.request_id ≡ signer.request_id) signers
      → (r.id ≡ signer.request_id → count (is_unsigned_of r.id) (signed_rows signers) ≢ 0)
      → Agrees signers r
      → Agrees (signed_rows signers) r
  Agrees-after r signers own open_left h = elim (Bool-cases (r.id == signer.request_id)) [
    | inl mine ↦ (λ c. unsigned_zero r.id signers (h.0 c), λ a. open_left (ground arith))
    | inr other ↦ rw (unsigned_other r.id signers (ground arith) own) h
  ]

  All-agree_open :
      (requests : List SignatureRequest) (signers : List SignatureSigner)
      → All (λ x. x.id ≡ signer.id → x.request_id ≡ signer.request_id) signers
      → count (is_unsigned_of signer.request_id) (signed_rows signers) ≢ 0
      → All (Agrees signers) requests
      → All (Agrees (signed_rows signers)) requests
  All-agree_open [] signers own left h = tt
  All-agree_open (r ∷ requests) signers own left h = (
    Agrees-after r signers own (λ e. rw e left) h.0,
    All-agree_open requests signers own left h.1,
  )

  All-agree_done :
      (requests : List SignatureRequest) (signers : List SignatureSigner)
      → All (λ x. x.id ≡ signer.id → x.request_id ≡ signer.request_id) signers
      → count (is_unsigned_of signer.request_id) (signed_rows signers) ≡ 0
      → All (Agrees signers) requests
      → All
          (Agrees (signed_rows signers))
          (update_where (λ r. r.id == signer.request_id) (set_complete now) requests)
  All-agree_done [] signers own zero_left h = tt
  All-agree_done (r ∷ requests) signers own zero_left h = (
    elim (Bool-cases (r.id == signer.request_id)) [
      | inl mine ↦
          let same : r.id ≡ signer.request_id = ground arith in
          rw mine (λ _. rw same zero_left, λ a. absurd (cc))
      | inr other ↦ rw other (Agrees-after r signers own (λ e. absurd (ground arith)) h.0)
    ],
    All-agree_done requests signers own zero_left h.1,
  )

record_signature-IsConsistent :
    (signer : SignatureSigner) (typed_name : String) (ip user_agent : Option String) (now : ℕ)
    (db : SignatureDb)
    → All (λ x. x.id ≡ signer.id → x.request_id ≡ signer.request_id) db.signers
    → IsConsistent db
    → IsConsistent (record_signature signer typed_name ip user_agent now db).1
unfolding record_signature complete_if_signed
record_signature-IsConsistent signer typed_name ip user_agent now db own h =
    let rows = signed_rows now typed_name ip user_agent signer db.signers in
    elim (Bool-cases (signable now signer (request_by_id db signer.request_id))) [
      | inr refused ↦ rw (refused, record_signature) h
      | inl allowed ↦ elim (Bool-cases (count (is_unsigned_of signer.request_id) rows == 0)) [
        | inl last_one ↦
            rw (allowed, record_signature)
              (rw (last_one, complete_if_signed)
                (All-agree_done now typed_name ip user_agent signer db.requests db.signers own
                  (ground arith) h))
        | inr more ↦
            rw (allowed, record_signature)
              (rw (more, complete_if_signed)
                (All-agree_open now typed_name ip user_agent signer db.requests db.signers own
                  (ground arith) h))
      ]
    ]

abbrev pub has_token : (ℕ → ℕ) → ℕ → SignatureSigner → Bool
has_token hash_token token s = s.token_hash == hash_token token

open_for_signing-cases :
    (hash_token : ℕ → ℕ) (token now : ℕ) (db : SignatureDb)
    → (open_for_signing hash_token token now db ≡ err not_found)
      ⊎ ((signer : SignatureSigner) × (first (has_token hash_token token) db.signers ≡ some signer)
          × (signable now signer (request_by_id db signer.request_id) ≡ true)
          × (open_for_signing hash_token token now db ≡ ok signer))
unfolding open_for_signing
open_for_signing-cases hash_token token now db =
    elim (Option-cases (first (has_token hash_token token) db.signers)) [
      | inl unknown ↦ inl (rw (unknown, open_for_signing) refl)
      | inr (signer, known) ↦
          elim (Bool-cases (signable now signer (request_by_id db signer.request_id))) [
            | inr refused ↦ inl (rw (known, open_for_signing) (rw refused refl))
            | inl allowed ↦
                inr (signer, known, allowed, rw (known, open_for_signing) (rw allowed refl))
          ]
    ]

-- The signing endpoint refuses and writes nothing, or it records the signature of the signer that
-- the token leads to.
pub sign-cases :
    (hash_token : ℕ → ℕ) (token : ℕ) (typed_name : String) (ip user_agent : Option String) (now : ℕ)
    (db : SignatureDb)
    → (sign hash_token token (some typed_name) ip user_agent now db ≡ (err not_found, db))
      ⊎ ((signer : SignatureSigner) × (first (has_token hash_token token) db.signers ≡ some signer)
          × (signable now signer (request_by_id db signer.request_id) ≡ true)
          × (sign hash_token token (some typed_name) ip user_agent now db
              ≡ record_signature signer typed_name ip user_agent now db))
unfolding sign
sign-cases hash_token token typed_name ip user_agent now db =
    elim (open_for_signing-cases hash_token token now db) [
      | inl e ↦ inl (rw (e, sign) refl)
      | inr (signer, known, allowed, e) ↦ inr (signer, known, allowed, rw (e, sign) refl)
    ]

-- Signing keeps every request's status in agreement with its signers, whatever the outcome of the
-- call. Ids of signers are unique.
pub sign-IsConsistent :
    (hash_token : ℕ → ℕ) (token : ℕ) (typed_name ip user_agent : Option String) (now : ℕ)
    (db : SignatureDb)
    → IsKeyed db.signers
    → IsConsistent db
    → IsConsistent (sign hash_token token typed_name ip user_agent now db).1
unfolding sign
sign-IsConsistent hash_token token none ip user_agent now db key h = h
sign-IsConsistent hash_token token (some typed_name) ip user_agent now db key h =
    elim (sign-cases hash_token token typed_name ip user_agent now db) [
      | inl e ↦ rw e h
      | inr (signer, known, allowed, e) ↦ rw e (
          record_signature-IsConsistent signer typed_name ip user_agent now db
            (owner (has_token hash_token token) db.signers signer known (key signer.id)) h)
    ]

-- Cancelling keeps every request's status in agreement with its signers.
pub cancel_request-IsConsistent :
    (request : SignatureRequest) (now : ℕ) (db : SignatureDb)
    → IsConsistent db
    → IsConsistent (cancel_request request now db).1
unfolding cancel_request
cancel_request-IsConsistent request now db h = elim (Bool-cases (is_awaiting request.status)) [
  | inr closed ↦ rw (closed, cancel_request) h
  | inl open_now ↦
      rw (open_now, cancel_request)
        (All-update (Agrees db.signers) (λ r. r.id == request.id) (set_cancelled now) db.requests
          (λ r e k. (λ c. absurd (cc), λ a. absurd (cc))) h)
]
