-- ===== src/Auth/Sessions/Tests.antt =====
-- One user with one session, in the family 20.
use cofoundaz_api.Transaction.{commit_on_success}
use cofoundaz_api.Prelude.{◌≡◌, refl, some, count, arith}
use cofoundaz_api.Errors.{ok, err, unauthorized}
use cofoundaz_api.Auth.{AuthSession, AuthDb}
use cofoundaz_api.Auth.Fixtures.{settings, crypto, ada, browser, draw, session, signed_in}
use cofoundaz_api.Auth.Sessions.{rotate_refresh, set_rotated, in_family, refresh, logout}
use cofoundaz_api.Auth.Sessions.Replay.{IsKeyed, IsNew}
use cofoundaz_api.Auth.Sessions.Steps.{start, followed_by, logged_out, refresh_once}
use cofoundaz_api.Auth.Sessions.Family.{refresh_reuse_keeps_family, logout_ends_session}

-- The tables after the token 20 was exchanged for the token 21 at the instant 100.
abbrev exchanged : AuthDb
exchanged = (refresh settings crypto (some 20) browser 100 (draw 21) signed_in).1

abbrev reused : AuthSession
reused = set_rotated 100 session

an_unknown_token :
    refresh settings crypto (some 33) browser 100 (draw 21) signed_in
    ≡ (err unauthorized, signed_in)
unfolding refresh commit_on_success
an_unknown_token = refl

an_expired_session :
    (refresh settings crypto (some 20) browser 901 (draw 21) signed_in).0 ≡ err unauthorized
unfolding refresh commit_on_success
an_expired_session = refl

the_exchange :
    (refresh settings crypto (some 20) browser 100 (draw 21) signed_in).0 ≡ ok (1001, 21, ada)
unfolding refresh commit_on_success
the_exchange = refl

signed_in-IsKeyed : IsKeyed signed_in.sessions
signed_in-IsKeyed id = ground arith

signed_in-IsNew : IsNew 21 signed_in.sessions
signed_in-IsNew = refl

refresh_once_example :
    let after = logout settings crypto (some 99) 150 exchanged in
    refresh settings crypto (some 20) browser 200 (draw 22) after ≡ (err unauthorized, after)
unfolding refresh commit_on_success
refresh_once_example =
    refresh_once settings crypto 20 browser browser 100 200 (draw 21) (draw 22) signed_in exchanged
      (logout settings crypto (some 99) 150 exchanged) (1001, 21, ada) signed_in-IsKeyed
      signed_in-IsNew refl (followed_by start (logged_out exchanged (some 99) 150))

refresh_reuse_keeps_family_example :
    let (_, revoked) = rotate_refresh settings crypto 20 browser 200 (draw 22) exchanged in
    (count (in_family 20) revoked.sessions ≡ 0)
    × (refresh settings crypto (some 20) browser 200 (draw 22) exchanged
        ≡ (err unauthorized, exchanged))
unfolding refresh commit_on_success
refresh_reuse_keeps_family_example =
    refresh_reuse_keeps_family settings crypto 20 browser 200 (draw 22) exchanged reused refl refl

logout_ends_session_example :
    let after = logout settings crypto (some 20) 150 signed_in in
    refresh settings crypto (some 20) browser 200 (draw 22) after ≡ (err unauthorized, after)
logout_ends_session_example =
    logout_ends_session settings crypto 20 browser 150 200 (draw 22) signed_in
      (logout settings crypto (some 20) 150 signed_in) session refl signed_in-IsKeyed start
