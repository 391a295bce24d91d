-- ===== src/Documents/Signatures/Remind.antt =====
-- Reminding the signers of a request (app/services/documents/signatures.py).
use cofoundaz_api.Documents.{SignatureRequest, SignatureSigner, SignatureDb}
use cofoundaz_api.Documents.Signatures.{
  is_active, is_unsigned_of, set_token, rotate_tokens, unsigned_signers, reissue_unsigned,
}
use cofoundaz_api.Documents.Signatures.Invariant.{Agrees, IsConsistent}
use cofoundaz_api.Prelude.{
  ℕ, ◌≡◌, refl, ◌∙◌, List, [], ◌∷◌, ◌==◌, All, count, update_where, Bool-cases, inl, inr, arith,
}

module _ (hash_token : ℕ → ℕ) (raw_for : ℕ → ℕ) where
  unsigned-set_token :
      (id signer_id hash : ℕ) (rows : List SignatureSigner)
      → count (is_unsigned_of id) (update_where (λ x. x.id == signer_id) (set_token hash) rows)
        ≡ count (is_unsigned_of id) rows
  unsigned-set_token id signer_id hash [] = refl
  unsigned-set_token id signer_id hash (s ∷ rows) =
      ground (arith, unsigned-set_token id signer_id hash rows)

  unsigned-rotate_tokens :
      (id : ℕ) (unsigned rows : List SignatureSigner)
      → count (is_unsigned_of id) (rotate_tokens hash_token unsigned raw_for rows)
        ≡ count (is_unsigned_of id) rows
  unfolding rotate_tokens
  unsigned-rotate_tokens id [] rows = refl
  unsigned-rotate_tokens id (s ∷ unsigned) rows =
      unsigned-rotate_tokens id unsigned _
      ∙ unsigned-set_token id s.id (hash_token (raw_for s.id)) rows

  Agrees-rotate_tokens :
      (unsigned rows : List SignatureSigner) (requests : List SignatureRequest)
      → All (Agrees rows) requests
      → All (Agrees (rotate_tokens hash_token unsigned raw_for rows)) requests
  Agrees-rotate_tokens unsigned rows [] h = tt
  Agrees-rotate_tokens unsigned rows (r ∷ requests) h = (
    rw (unsigned-rotate_tokens r.id unsigned rows) h.0,
    Agrees-rotate_tokens unsigned rows requests h.1,
  )

-- Reminding, whatever its outcome, keeps every request's status in agreement with its signers: new
-- tokens do not make a signature.
pub reissue_unsigned-IsConsistent :
    (hash_token : ℕ → ℕ) (request : SignatureRequest) (raw_for : ℕ → ℕ) (now : ℕ) (db : SignatureDb)
    → IsConsistent db
    → IsConsistent (reissue_unsigned hash_token request raw_for now db).1
unfolding reissue_unsigned
reissue_unsigned-IsConsistent hash_token request raw_for now db h =
    elim (Bool-cases (is_active now request)) [
      | inr closed ↦ rw (closed, reissue_unsigned) h
      | inl open_now ↦
          rw (open_now, reissue_unsigned)
            (Agrees-rotate_tokens hash_token raw_for (unsigned_signers db request.id) db.signers
              db.requests h)
    ]
