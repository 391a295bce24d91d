-- ===== src/Assessment/Service/Start.antt =====
-- Starting an assessment (`start_or_resume` of app/services/assessment/service.py).
use cofoundaz_api.Prelude.{
  ℕ, ◌≤◌, ◌≡◌, refl, ◌∙◌, Bool, true, none, some, List, [], ◌∷◌, ◌++◌, first, first-none_iff,
  first-fits, count, count-append, arith, inl, inr, Option-cases,
}
use cofoundaz_api.Assessment.{Bank}
use cofoundaz_api.Assessment.Engine.{Startup}
use cofoundaz_api.Assessment.Service.{
  Assessment, AssessmentDb, is_open_for, new_assessment, start_or_resume,
}

first-snoc :
    (p : Assessment → Bool) (xs : List Assessment) (x : Assessment)
    → first p xs ≡ none
    → p x ≡ true
    → first p (xs ++ x ∷ []) ≡ some x
first-snoc p [] x n e = ground arith
first-snoc p (y ∷ xs) x n e = ground (arith, first-snoc p xs x)

count-first :
    (p : Assessment → Bool) (xs : List Assessment) (a : Assessment)
    → first p xs ≡ some a
    → 1 ≤ count p xs
count-first p [] a e = cc
count-first p (x ∷ xs) a e = ground (arith, count-first p xs a)

module _ {W : Type 0} (bank : Bank) (startup_id : ℕ) (startup : Startup) where
  resumed :
      (user_id new_id : ℕ) (db : AssessmentDb W) (a : Assessment)
      → first (is_open_for startup_id) db.assessments ≡ some a
      → start_or_resume bank startup_id startup user_id new_id db ≡ (a, db)
  unfolding start_or_resume
  resumed user_id new_id db a e = rw (e, start_or_resume) refl

  started_new :
      (user_id new_id : ℕ) (db : AssessmentDb W)
      → first (is_open_for startup_id) db.assessments ≡ none
      → start_or_resume bank startup_id startup user_id new_id db ≡ (
        new_assessment bank startup_id startup user_id new_id db,
        record db {
          assessments =
              db.assessments ++ new_assessment bank startup_id startup user_id new_id db ∷ [];
        },
      )
  unfolding start_or_resume
  started_new user_id new_id db e = rw (e, start_or_resume) refl

  -- Starting gives an assessment of the startup that is in progress; with at most one before, there
  -- is exactly one afterwards, and starting again, whoever does it, gives the same and writes nothing.
  pub start_or_resume_lem :
      (user_id new_id other_user other_id : ℕ) (db : AssessmentDb W)
      → count (is_open_for startup_id) db.assessments ≤ 1
      → let started = start_or_resume bank startup_id startup user_id new_id db in
        (is_open_for startup_id started.0 ≡ true)
        × (count (is_open_for startup_id) started.1.assessments ≡ 1)
        × (start_or_resume bank startup_id startup other_user other_id started.1 ≡ started)
  start_or_resume_lem user_id new_id other_user other_id db few =
      elim (Option-cases (first (is_open_for startup_id) db.assessments)) [
        | inr (a, e) ↦
            let least = count-first (is_open_for startup_id) db.assessments a e in
            rw (resumed user_id new_id db a e) (
              first-fits (is_open_for startup_id) db.assessments a e,
              omega (arith, few, least),
              resumed other_user other_id db a e,
            )
        | inl e ↦
            let a = new_assessment bank startup_id startup user_id new_id db in
            let active : is_open_for startup_id a ≡ true = ground arith in
            let db' = record db { assessments = db.assessments ++ a ∷ [] } in
            let none_before = (first-none_iff (is_open_for startup_id) db.assessments).0 e in
            let one : count (is_open_for startup_id) (a ∷ []) ≡ 1 = rw active refl in
            rw (started_new user_id new_id db e) (
              active,
              count-append (is_open_for startup_id) db.assessments (a ∷ [])
                  ∙ omega (arith, none_before, one),
              resumed other_user other_id db' a
                  (first-snoc (is_open_for startup_id) db.assessments a e active),
            )
      ]
