-- ===== src/Assessment/Service/Completion.antt =====
-- Completing an assessment (`complete_assessment` of app/services/assessment/service.py).
use Prim.Native.String.{String}
use cofoundaz_api.Prelude.{ℕ, ◌+◌, ◌≡◌, Bool, false, List, if◌then◌else◌, length, count}
use cofoundaz_api.Errors.{Result, ok, err}
use cofoundaz_api.Assessment.{Bank}
use cofoundaz_api.Assessment.Engine.{Startup}
use cofoundaz_api.Assessment.Service.{
  Assessment, AssessmentResult, AssessmentDb, is_claimable, complete_assessment,
}

-- A row with the id is one of the startup.
abbrev pub IsOf : ℕ → ℕ → Assessment → Type 0
IsOf startup_id id x = x.id ≡ id → x.startup_id ≡ startup_id

module _ {W : Type 0} (bank : Bank) (startup_id : ℕ) (startup : Startup) (str : ℕ → String)
    (recompute : ℕ → List Assessment → List AssessmentResult → W → W) where
  -- What a call that returned leaves: a second call returns the same, without the claim, and writes
  -- nothing; and the event and the jobs are those of the claim, if it was won.
  abbrev IsOnce :
      Assessment → AssessmentDb W → Result (AssessmentResult × Bool) × AssessmentDb W → Type 0
  IsOnce a db (err e, db') = Unit
  IsOnce a db (ok (r, claimed), db') =
      ((later job3 job4 job5 : ℕ)
        → complete_assessment bank startup_id startup str recompute a later job3 job4 job5 db'
          ≡ (ok (r, false), db'))
      × (length db'.events ≡ length db.events + (if claimed then 1 else 0))
      × (length db'.jobs ≡ length db.jobs + (if claimed then 3 else 0))
      × (count (is_claimable a.id) db'.assessments ≡ 0)
