-- ===== src/Transaction.antt =====
-- A service call on the database session (app/db/session.py): it returns a value or raises, and the
-- writes that it has flushed stay in the session either way. What a request leaves behind is decided
-- by the endpoint: `get_db` closes the session, which rolls back what was not committed.
use cofoundaz_api.Prelude.{◌≡◌, ap}
use cofoundaz_api.Errors.{AppError, Result, ok, err}

abbrev pub Tx : Type 0 → Type 0 → Type 0
Tx S A = S → Result A × S

abbrev commit_or_rollback : {S A : Type 0} → S → Result A × S → Result A × S
commit_or_rollback db (ok a, db') = (ok a, db')
commit_or_rollback db (err e, db') = (err e, db)

-- An endpoint that calls a service and then `db.commit()`: an exception leaves before the commit, so
-- nothing that the call wrote is kept.
unfoldable pub commit_on_success : {S A : Type 0} → Tx S A → Tx S A
commit_on_success call db = commit_or_rollback db (call db)

-- What a call that raises leaves behind, and what a call that returns does.
pub commit-err :
    {S A : Type 0} (call : Tx S A) (db db' : S) (e : AppError)
    → call db ≡ (err e, db')
    → commit_on_success call db ≡ (err e, db)
unfolding commit_on_success
commit-err call db db' e h = ap (commit_or_rollback db) h

pub commit-ok :
    {S A : Type 0} (call : Tx S A) (db db' : S) (a : A)
    → call db ≡ (ok a, db')
    → commit_on_success call db ≡ (ok a, db')
unfolding commit_on_success
commit-ok call db db' a h = ap (commit_or_rollback db) h
