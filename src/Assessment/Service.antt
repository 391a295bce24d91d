-- ===== src/Assessment/Service.antt =====
-- app/services/assessment/service.py, with the tables of app/db/models/assessment.py. The database
-- beside them is of type `W`; what app/services/health_score/service.py does to it on a completion is
-- a parameter. A call runs by itself, so that an insert under a unique key that the call has just
-- found free does not fail.
pub mod Completion
pub mod Submit
pub mod Start
mod Tests
use Prim.Native.String.{String}
use package.text.Mathlib.Text.{◌==◌ as str_eq}
use cofoundaz_api.Prelude.{
  any, ℕ, ◌+◌, Bool, true, false, ◌&&◌, not, Option, none, some, List, [], ◌∷◌, ◌++◌, ◌==◌, is_some,
  if◌then◌else◌, first, where_all, count, update_where, map,
}
use cofoundaz_api.Errors.{
  AppError, Result, ok, err, invalid_answer, assessment_incomplete, assessment_conflict,
}
use cofoundaz_api.Worker.{Job, enqueue}
use cofoundaz_api.Assessment.{Question, Bank, Answers, Value}
use cofoundaz_api.Assessment.Engine.{
  Startup, next_question, validate_answer, Verdict, valid, invalid, unhashable,
}
use cofoundaz_api.Assessment.Scoring.{Scores, Scored, score}

pub data AssessmentStatus : Type 0 where
  in_progress completed abandoned : AssessmentStatus

abbrev pub is_in_progress : AssessmentStatus → Bool
is_in_progress in_progress = true
is_in_progress _ = false

abbrev is_completed : AssessmentStatus → Bool
is_completed completed = true
is_completed _ = false

pub data AssessmentType : Type 0 where
  initial quarterly : AssessmentType

abbrev is_initial : AssessmentType → Bool
is_initial initial = true
is_initial quarterly = false

-- `kind` is the column `type`.
pub record Assessment : Type 0 where
  pub id : ℕ
  pub startup_id : ℕ
  pub kind : AssessmentType
  pub status : AssessmentStatus
  pub bank_version : String
  pub created_by : ℕ
  pub completed_at : Option ℕ

pub record AssessmentAnswer : Type 0 where
  pub assessment_id : ℕ
  pub question_key : String
  pub value_json : Value

pub record AssessmentResult : Type 0 where
  pub assessment_id : ℕ
  pub dimension_scores : Scores
  pub overall_provisional : ℕ
  pub narrative : String

-- The event `assessment.completed`.
pub record AssessmentCompleted : Type 0 where
  pub assessment_id : ℕ
  pub startup_id : ℕ
  pub dimension_scores : Scores

-- `assessment_pending` lists the startups whose profile has the flag.
pub record AssessmentDb (W : Type 0) : Type 0 where
  pub assessments : List Assessment
  pub answers : List AssessmentAnswer
  pub results : List AssessmentResult
  pub assessment_pending : List ℕ
  pub jobs : List Job
  pub events : List AssessmentCompleted
  pub rest : W

abbrev entry : AssessmentAnswer → String × Value
entry r = (r.question_key, r.value_json)

abbrev pub of_assessment : ℕ → AssessmentAnswer → Bool
of_assessment id r = r.assessment_id == id

pub answered_map : ℕ → List AssessmentAnswer → Answers
answered_map id rows = map entry (where_all (of_assessment id) rows)

abbrev pub is_open_for : ℕ → Assessment → Bool
is_open_for startup_id a = (a.startup_id == startup_id) && is_in_progress a.status

abbrev pub is_row : ℕ → String → AssessmentAnswer → Bool
is_row id key r = of_assessment id r && str_eq r.question_key key

abbrev set_value : Value → AssessmentAnswer → AssessmentAnswer
set_value value r = record r { value_json = value }

-- `INSERT ... ON CONFLICT (assessment_id, question_key) DO UPDATE`
pub upsert_answer : ℕ → String → Value → List AssessmentAnswer → List AssessmentAnswer
upsert_answer id key value rows =
    if is_some (first (is_row id key) rows)
    then update_where (is_row id key) (set_value value) rows
    else rows ++ record { assessment_id = id; question_key = key; value_json = value } ∷ []

-- How `submit_answer` ends: with an error, with the `TypeError` of the engine, or with the question
-- that comes next.
pub data Submission : Type 0 where
  raised : AppError → Submission
  crashed : Submission
  stored : Option Question → Submission

abbrev pub is_claimable : ℕ → Assessment → Bool
is_claimable id a = (a.id == id) && is_in_progress a.status

abbrev pub set_completed : ℕ → Assessment → Assessment
set_completed now a = record a { status = completed; completed_at = some now }

abbrev pub result_of : ℕ → AssessmentResult → Bool
result_of id r = r.assessment_id == id

-- `latest_completed_result` is not None: the startup has a completed assessment with a result.
abbrev pub has_result : ℕ → List Assessment → List AssessmentResult → Bool
has_result startup_id assessments results =
    any
      (λ (a : Assessment).
        (a.startup_id == startup_id) && (is_completed a.status && any (result_of a.id) results))
      assessments

-- What `recompute_health_score` does to the job table: without a result it returns early.
abbrev pub recompute_jobs : ℕ → Bool → ℕ → ℕ → List Job → List Job
recompute_jobs startup_id found job0 now jobs =
    if found
    then enqueue "ai.health.recommendations" (("startup_id", startup_id) ∷ []) (some startup_id)
        job0 now jobs
    else jobs

-- The result found by a call that did not win the claim.
abbrev pub stored_result : Option AssessmentResult → Result (AssessmentResult × Bool)
stored_result none = err assessment_conflict
stored_result (some r) = ok (r, false)

module _ {W : Type 0} (bank : Bank) (startup_id : ℕ) (startup : Startup) where
  abbrev pub new_assessment : ℕ → ℕ → AssessmentDb W → Assessment
  new_assessment user_id new_id db =
      let has_completed = is_some (
        first (λ (a : Assessment). (a.startup_id == startup_id) && is_completed a.status)
          db.assessments) in
      record {
        id = new_id;
        startup_id = startup_id;
        kind = if has_completed then quarterly else initial;
        status = in_progress;
        bank_version = bank.version;
        created_by = user_id;
        completed_at = none;
      }

  pub start_or_resume : ℕ → ℕ → AssessmentDb W → Assessment × AssessmentDb W
  start_or_resume user_id new_id db = elim (first (is_open_for startup_id) db.assessments) [
    | some existing ↦ (existing, db)
    | none ↦
        let a = new_assessment user_id new_id db in
        (a, record db { assessments = db.assessments ++ a ∷ [] })
  ]

  abbrev store_answer : Assessment → String → Value → AssessmentDb W → Submission × AssessmentDb W
  unfolding upsert_answer answered_map
  store_answer assessment key value db =
      let rows = upsert_answer assessment.id key value db.answers in
      (
        stored (next_question bank (answered_map assessment.id rows) startup),
        record db { answers = rows },
      )

  pub submit_answer :
      (String → Bool) → Assessment → String → Value → AssessmentDb W → Submission × AssessmentDb W
  unfolding answered_map store_answer
  submit_answer is_blank assessment key value db =
      let current = next_question bank (answered_map assessment.id db.answers) startup in
      if is_in_progress assessment.status
      then elim current [
        | none ↦ (raised invalid_answer, db)
        | some q ↦
            if str_eq q.key key
            then elim (validate_answer is_blank q value) [
              | invalid ↦ (raised invalid_answer, db)
              | unhashable ↦ (crashed, db)
              | valid ↦ store_answer assessment key value db
            ]
            else (raised invalid_answer, db)
      ]
      else (raised invalid_answer, db)

  module _ (str : ℕ → String)
      (recompute : ℕ → List Assessment → List AssessmentResult → W → W) where
    -- The body behind a claim that was won; three ids for the jobs.
    abbrev pub score_and_publish :
        Assessment → ℕ → ℕ → ℕ → ℕ → AssessmentDb W → (AssessmentResult × Bool) × AssessmentDb W
    unfolding answered_map
    score_and_publish assessment now job0 job1 job2 db =
        let scored = score str bank (answered_map assessment.id db.answers) startup in
        let result : AssessmentResult = record {
          assessment_id = assessment.id;
          dimension_scores = scored.dimension_scores;
          overall_provisional = scored.overall_provisional;
          narrative = scored.narrative;
        } in
        let assessments =
          update_where (is_claimable assessment.id) (set_completed now) db.assessments in
        let results = db.results ++ result ∷ [] in
        let payload = ("startup_id", startup_id) ∷ ("assessment_id", assessment.id) ∷ [] in
        (
          (result, true),
          record {
            assessments = assessments;
            answers = db.answers;
            results = results;
            assessment_pending =
                if is_initial assessment.kind
                then where_all (λ s. not (s == startup_id)) db.assessment_pending
                else db.assessment_pending;
            jobs = enqueue "ai.assessment.narrative" payload (some startup_id) job2 now (
                enqueue "roadmap.replan" payload (some startup_id) job1 now (
                  recompute_jobs startup_id (has_result startup_id assessments results) job0 now
                    db.jobs));
            events =
                db.events
                ++ record {
                  assessment_id = assessment.id;
                  startup_id = startup_id;
                  dimension_scores = scored.dimension_scores;
                }
                  ∷ [];
            rest = recompute startup_id assessments results db.rest;
          },
        )

    -- The claim, with what follows for the caller that won it and for the one that did not.
    abbrev pub claim_completion :
        Assessment
        → ℕ
        → ℕ
        → ℕ
        → ℕ
        → AssessmentDb W
        → Result (AssessmentResult × Bool) × AssessmentDb W
    claim_completion assessment now job0 job1 job2 db =
        if count (is_claimable assessment.id) db.assessments == 0
        then (stored_result (first (result_of assessment.id) db.results), db)
        else let (r, db') = score_and_publish assessment now job0 job1 job2 db in (ok r, db')

    pub complete_assessment :
        Assessment
        → ℕ
        → ℕ
        → ℕ
        → ℕ
        → AssessmentDb W
        → Result (AssessmentResult × Bool) × AssessmentDb W
    unfolding answered_map
    complete_assessment assessment now job0 job1 job2 db =
        elim (next_question bank (answered_map assessment.id db.answers) startup) [
          | some nq ↦ (err assessment_incomplete, db)
          | none ↦ claim_completion assessment now job0 job1 job2 db
        ]
