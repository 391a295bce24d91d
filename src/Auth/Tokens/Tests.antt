-- ===== src/Auth/Tokens/Tests.antt =====
-- One user with one password reset token.
use cofoundaz_api.Transaction.{commit_on_success}
use cofoundaz_api.Prelude.{◌≡◌, refl, some, count, All, arith}
use cofoundaz_api.Errors.{err, token_invalid}
use cofoundaz_api.Auth.{AuthDb, password_reset, email_verification}
use cofoundaz_api.Auth.Fixtures.{settings, crypto, ada, draw, signed_in}
use cofoundaz_api.Auth.Sessions.Family.{is_live_of}
use cofoundaz_api.Auth.Tokens.{issue_auth_token, consume_auth_token, reset}
use cofoundaz_api.Auth.Tokens.Once.{consume_auth_token_once, reset_outcome}

abbrev issued : AuthDb
issued = (issue_auth_token crypto ada password_reset 600 100 (draw 30) signed_in).1

abbrev consumed : AuthDb
consumed = (consume_auth_token crypto password_reset 30 200 issued).1

another_purpose : (consume_auth_token crypto email_verification 30 200 issued).0 ≡ err token_invalid
unfolding consume_auth_token issue_auth_token
another_purpose = refl

an_expired_token : (consume_auth_token crypto password_reset 30 701 issued).0 ≡ err token_invalid
unfolding consume_auth_token issue_auth_token
an_expired_token = refl

consume_auth_token_once_example :
    consume_auth_token crypto password_reset 30 300 consumed ≡ (err token_invalid, consumed)
unfolding consume_auth_token issue_auth_token
consume_auth_token_once_example =
    consume_auth_token_once crypto password_reset 30 200 300 issued consumed ada refl (omega arith)

abbrev after_reset : AuthDb
after_reset = (reset settings crypto 60 30 200 issued).1

reset_outcome_example :
    (count (is_live_of 1) after_reset.sessions ≡ 0)
    × All (λ u. u.id ≡ 1 → u.password_hash ≡ some 65) after_reset.users
    × (reset settings crypto 61 30 300 after_reset ≡ (err token_invalid, after_reset))
unfolding reset issue_auth_token commit_on_success
reset_outcome_example =
    reset_outcome settings crypto 60 61 30 200 300 issued after_reset ada refl (omega arith)
