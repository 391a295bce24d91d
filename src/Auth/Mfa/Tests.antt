-- ===== src/Auth/Mfa/Tests.antt =====
-- Two users with backup codes, of which two are alike.
use cofoundaz_api.Prelude.{ℕ, ◌+◌, ◌≡◌, refl, ltb, none, List, [], ◌∷◌, if◌then◌else◌}
use cofoundaz_api.Auth.Fixtures.{crypto}
use cofoundaz_api.Auth.Mfa.{MfaBackupCode, consume_backup_code}
use cofoundaz_api.Auth.Mfa.Codes.{HasUniqueIds, uses_left, consume_backup_code_lem}

abbrev code_of : ℕ → ℕ → ℕ → MfaBackupCode
code_of id user_id code = record {
  id = id;
  user_id = user_id;
  code_hash = code + 1000;
  consumed_at = none;
}

abbrev table : List MfaBackupCode
table = code_of 1 5 77 ∷ code_of 2 6 77 ∷ code_of 3 5 77 ∷ code_of 4 5 78 ∷ []

table-HasUniqueIds : HasUniqueIds table
unfolding HasUniqueIds
table-HasUniqueIds = ((refl, (refl, (refl, tt))), ((refl, (refl, tt)), ((refl, tt), (tt, tt))))

consume_backup_code_lem_example :
    let result = consume_backup_code crypto 5 77 99 table in
    (result.0 ≡ ltb 0 (uses_left crypto 5 77 table))
    × (uses_left crypto 5 77 result.1 + (if result.0 then 1 else 0) ≡ uses_left crypto 5 77 table)
    × (uses_left crypto 6 77 result.1 ≡ uses_left crypto 6 77 table)
consume_backup_code_lem_example =
    consume_backup_code_lem crypto 5 77 99 table 6 77 table-HasUniqueIds refl
