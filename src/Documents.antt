-- ===== src/Documents.antt =====
-- The tables of signature requests (app/db/models/document.py) and the events that their operations
-- publish. Instants are seconds.
pub mod Signatures
pub mod Shares
pub mod Store
use Prim.Native.String.{String}
use cofoundaz_api.Prelude.{
  ℕ, ◌+◌, ◌-◌, ◌*◌, Bool, true, false, Option, none, some, List, [], ◌∷◌, ◌++◌, ◌==◌, if◌then◌else◌,
}

-- Integers: `negsuc n` is one more than `n` below zero.
pub data ℤ : Type 0 where
  pos negsuc : ℕ → ℤ

-- `... if expires_in_days else None`: zero days counts as no expiry, and with negative days the expiry
-- lies in the past, where instants stop at the first.
abbrev pub expiry : ℕ → Option ℤ → Option ℕ
expiry now none = none
expiry now (some (pos days)) = if days == 0 then none else some (now + days * 86400)
expiry now (some (negsuc n)) = some (now - (n + 1) * 86400)

pub data SignatureRequestStatus : Type 0 where
  awaiting complete cancelled : SignatureRequestStatus

abbrev pub is_awaiting : SignatureRequestStatus → Bool
is_awaiting awaiting = true
is_awaiting _ = false

pub record SignatureRequest : Type 0 where
  pub id : ℕ
  pub startup_id : ℕ
  pub file_id : ℕ
  pub title : String
  pub status : SignatureRequestStatus
  pub created_by_id : Option ℕ
  pub expires_at : Option ℕ
  pub completed_at : Option ℕ
  pub cancelled_at : Option ℕ

pub record SignatureSigner : Type 0 where
  pub id : ℕ
  pub request_id : ℕ
  pub email : String
  pub name : Option String
  pub token_hash : ℕ
  pub position : ℕ
  pub signed_at : Option ℕ
  pub signed_name : Option String
  pub signed_ip : Option String
  pub signed_user_agent : Option String

-- The events that `event_bus.publish` records, with the ids of their payloads.
pub data SignatureEvent : Type 0 where
  requested signature_cancelled signature_completed : ℕ → SignatureEvent
  signature_signed : ℕ → ℕ → SignatureEvent

pub record SignatureDb : Type 0 where
  pub requests : List SignatureRequest
  pub signers : List SignatureSigner
  pub published : List SignatureEvent

abbrev pub publish : SignatureEvent → SignatureDb → SignatureDb
publish event db = record db { published = db.published ++ event ∷ [] }
