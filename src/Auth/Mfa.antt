-- ===== src/Auth/Mfa.antt =====
-- The backup codes of two-factor sign-in (app/services/auth/mfa.py). Their table is state of its own;
-- a code is the number that stands for its ten digits, and what is drawn at each turn of the loop is
-- an argument.
pub mod Codes
mod Tests
use cofoundaz_api.Prelude.{
  ℕ, zero, suc, ◌+◌, Bool, true, false, not, Option, none, some, List, [], ◌∷◌, ◌++◌, ◌==◌, ◌&&◌,
  is_none, first, where_all, update_where, map,
}
use cofoundaz_api.Auth.{Crypto}

pub record MfaBackupCode : Type 0 where
  pub id : ℕ
  pub user_id : ℕ
  pub code_hash : ℕ
  pub consumed_at : Option ℕ

-- The codes that the turns of the loop draw, from a place on.
pub drawn : (ℕ → ℕ) → ℕ → ℕ → List ℕ
drawn draw place zero = []
drawn draw place (suc turns) = draw place ∷ drawn draw (place + 1) turns

pub code_rows : Crypto → ℕ → (ℕ → ℕ) → ℕ → List ℕ → List MfaBackupCode
code_rows crypto user_id new_id place [] = []
code_rows crypto user_id new_id place (code ∷ codes) =
    record {
      id = new_id place;
      user_id = user_id;
      code_hash = crypto.hash_token code;
      consumed_at = none;
    }
    ∷ code_rows crypto user_id new_id (place + 1) codes

-- The codes that the user is shown, and the table.
pub generate_backup_codes :
    Crypto → ℕ → (ℕ → ℕ) → (ℕ → ℕ) → List MfaBackupCode → List ℕ × List MfaBackupCode
generate_backup_codes crypto user_id draw new_id rows =
    let codes = drawn draw 0 10 in
    (
      codes,
      where_all (λ (c : MfaBackupCode). not (c.user_id == user_id)) rows
          ++ code_rows crypto user_id new_id 0 codes,
    )

abbrev pub is_usable : ℕ → ℕ → MfaBackupCode → Bool
is_usable user_id hash c = (c.user_id == user_id) && (c.code_hash == hash) && is_none c.consumed_at

abbrev pub set_used : ℕ → MfaBackupCode → MfaBackupCode
set_used now c = record c { consumed_at = some now }

abbrev pub consume_row : ℕ → List MfaBackupCode → Option MfaBackupCode → Bool × List MfaBackupCode
consume_row now rows none = (false, rows)
consume_row now rows (some row) =
    (true, update_where (λ (c : MfaBackupCode). c.id == row.id) (set_used now) rows)

pub consume_backup_code : Crypto → ℕ → ℕ → ℕ → List MfaBackupCode → Bool × List MfaBackupCode
consume_backup_code crypto user_id code now rows =
    consume_row now rows (first (is_usable user_id (crypto.hash_token code)) rows)
