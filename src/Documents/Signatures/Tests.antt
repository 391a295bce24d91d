-- ===== src/Documents/Signatures/Tests.antt =====
-- A request with two signers, who sign one after the other.
use Prim.Native.String.{String}
use cofoundaz_api.Prelude.{ℕ, ◌+◌, ◌≡◌, refl, true, false, some, none, List, [], ◌∷◌, arith, All}
use cofoundaz_api.Errors.{err, not_found, validation_error}
use cofoundaz_api.Documents.{
  pos, SignatureRequest, awaiting, SignatureSigner, SignatureDb, is_awaiting,
}
use cofoundaz_api.Documents.Signatures.{SignerInput, create_request, sign}
use cofoundaz_api.Documents.Signatures.Invariant.{IsConsistent, IsKeyed, sign-IsConsistent}
use cofoundaz_api.Documents.Signatures.Signing.{create_request-IsConsistent, sign_once}

abbrev hash : ℕ → ℕ
hash n = n + 1000

abbrev invited : List SignerInput
invited =
    record { email = "a@x"; name = none; raw = 1; new_id = 21 }
    ∷ record { email = "b@x"; name = none; raw = 2; new_id = 22 }
    ∷ []

abbrev empty : SignatureDb
empty = record { requests = []; signers = []; published = [] }

abbrev request : SignatureRequest
request = record {
  id = 9;
  startup_id = 7;
  file_id = 5;
  title = "deed";
  status = awaiting;
  created_by_id = some 1;
  expires_at = some 172900;
  completed_at = none;
  cancelled_at = none;
}

abbrev signer : ℕ → String → SignatureSigner
signer n email = record {
  id = 20 + n;
  request_id = 9;
  email = email;
  name = none;
  token_hash = 1000 + n;
  position = 0;
  signed_at = none;
  signed_name = none;
  signed_ip = none;
  signed_user_agent = none;
}

abbrev sent : SignatureDb
sent = (create_request hash 7 5 1 "deed" invited (some (pos 2)) 100 9 empty).1

abbrev first_signed : SignatureDb
first_signed = (sign hash 1 (some "A") none none 200 sent).1

abbrev both_signed : SignatureDb
both_signed = (sign hash 2 (some "B") none none 300 first_signed).1

without_signers : (create_request hash 7 5 1 "deed" [] none 100 9 empty).0 ≡ err validation_error
unfolding create_request
without_signers = refl

the_sent_request : sent.requests ≡ request ∷ []
unfolding create_request
the_sent_request = refl

the_second_completes :
    (All (λ r. is_awaiting r.status ≡ true) first_signed.requests)
    × (All (λ r. is_awaiting r.status ≡ false) both_signed.requests)
unfolding create_request sign
the_second_completes = ((refl, tt), (refl, tt))

sent-IsConsistent : IsConsistent sent
sent-IsConsistent =
    create_request-IsConsistent hash 7 5 1 "deed" invited (some (pos 2)) 100 9 empty refl tt

sent-IsKeyed : IsKeyed sent.signers
unfolding create_request
sent-IsKeyed id = ground arith

sign-IsConsistent_example : IsConsistent first_signed
sign-IsConsistent_example =
    sign-IsConsistent hash 1 (some "A") none none 200 sent sent-IsKeyed sent-IsConsistent

sign_once_example :
    sign hash 1 (some "C") none none 250 first_signed ≡ (err not_found, first_signed)
unfolding create_request sign
sign_once_example = sign_once hash 1 "A" "C" none none none none 200 250 sent first_signed refl
