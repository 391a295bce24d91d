-- ===== src/Assessment/Service/Tests.antt =====
-- A startup that answers a bank of one question, and the scores of its answers.
use cofoundaz_api.Worker.{enqueue}
use Prim.Native.String.{String}
use cofoundaz_api.Prelude.{
  round_div, ℕ, ◌+◌, ◌*◌, ◌≤◌, ◌≢◌, ◌⊎◌, ◌≡◌, refl, Bool, true, false, none, some, List, [], ◌∷◌,
  All, count, length, arith,
}
use cofoundaz_api.Assessment.{Bank, Question, Dimension, QType, Value, Answers, get_answer}
use cofoundaz_api.Assessment.Engine.{Startup, next_question, validate_answer, valid}
use cofoundaz_api.Assessment.Scoring.{
  score, first_score, other_scores, top_of, low_of, total, narrative_of, dimension_score,
}
use cofoundaz_api.Assessment.Scoring.Bounds.{score_lem}
use cofoundaz_api.Assessment.Service.{
  Assessment, AssessmentStatus, AssessmentType, AssessmentResult, AssessmentDb, is_open_for,
  start_or_resume, submit_answer, complete_assessment, is_in_progress, answered_map,
}
use cofoundaz_api.Assessment.Service.Start.{start_or_resume_lem}
use cofoundaz_api.Assessment.Service.Submit.{submit_answer_stored}

abbrev stage : Question
stage = record {
  key = "product_stage";
  dimension = Dimension.product;
  section = "Product";
  qtype = QType.single_choice;
  scoring = ("idea", 1) ∷ ("live", 4) ∷ [];
  max_points = 4;
  options = "idea" ∷ "live" ∷ [];
  show_if = none;
}

abbrev bank : Bank
bank = record { version = "v1"; questions = stage ∷ [] }

abbrev startup : Startup
startup name = none

abbrev is_blank : String → Bool
is_blank s = false

abbrev str : ℕ → String
str n = "50"

abbrev recompute : ℕ → List Assessment → List AssessmentResult → ℕ → ℕ
recompute startup_id assessments results n = n + 1

abbrev empty : AssessmentDb ℕ
empty = record {
  assessments = [];
  answers = [];
  results = [];
  assessment_pending = 7 ∷ [];
  jobs = [];
  events = [];
  rest = 0;
}

abbrev assessment : Assessment
assessment = record {
  id = 20;
  startup_id = 7;
  kind = AssessmentType.initial;
  status = AssessmentStatus.in_progress;
  bank_version = "v1";
  created_by = 5;
  completed_at = none;
}

abbrev started : AssessmentDb ℕ
started = (start_or_resume bank 7 startup 5 20 empty).1

abbrev answered : AssessmentDb ℕ
answered =
    (submit_answer bank 7 startup is_blank assessment "product_stage" (Value.text "live") started).1

abbrev finished : AssessmentDb ℕ
finished = (complete_assessment bank 7 startup str recompute assessment 90 30 31 32 answered).1

scores_test :
    (dimension_score bank (answered_map 20 answered.answers) startup Dimension.product ≡ 100)
    × (dimension_score bank (answered_map 20 answered.answers) startup Dimension.team ≡ 50)
unfolding dimension_score answered_map submit_answer next_question start_or_resume validate_answer
    round_div
scores_test = (refl, refl)

effects_test : (length finished.jobs ≡ 3) × (finished.assessment_pending ≡ []) × (finished.rest ≡ 1)
unfolding complete_assessment next_question submit_answer start_or_resume validate_answer enqueue
effects_test = (refl, refl, refl)

start_or_resume_lem_example :
    (is_open_for 7 (start_or_resume bank 7 startup 5 20 empty).0 ≡ true)
    × (count (is_open_for 7) (start_or_resume bank 7 startup 5 20 empty).1.assessments ≡ 1)
    × (start_or_resume bank 7 startup 6 21 (start_or_resume bank 7 startup 5 20 empty).1
        ≡ start_or_resume bank 7 startup 5 20 empty)
start_or_resume_lem_example = start_or_resume_lem bank 7 startup 5 20 6 21 empty (omega arith)

submit_answer_stored_example :
    (is_in_progress assessment.status ≡ true)
    × ((q : Question) × (next_question bank (answered_map 20 started.answers) startup ≡ some q)
        × (q.key ≡ "product_stage")
        × (validate_answer is_blank q (Value.text "live") ≡ valid))
    × (get_answer "product_stage" (answered_map 20 answered.answers) ≡ some (Value.text "live"))
    × ((other : ℕ) (k : String)
        → (20 ≢ other) ⊎ ("product_stage" ≢ k)
        → get_answer k (answered_map other answered.answers)
          ≡ get_answer k (answered_map other started.answers))
    × (none ≡ next_question bank (answered_map 20 answered.answers) startup)
unfolding submit_answer next_question start_or_resume validate_answer
submit_answer_stored_example =
    submit_answer_stored bank 7 startup is_blank assessment "product_stage" (Value.text "live")
      started answered none refl

abbrev result : AssessmentResult
result = record {
  assessment_id = 20;
  dimension_scores =
      (Dimension.product, 100)
      ∷ (Dimension.market, 50)
      ∷ (Dimension.money, 50)
      ∷ (Dimension.legal, 50)
      ∷ (Dimension.team, 50)
      ∷ [];
  overall_provisional = 60;
  narrative = "Your strongest area is product (50). Focus next on market (50).";
}

abbrev live : Answers
live = ("product_stage", Value.text "live") ∷ []

score_lem_example :
    let scored = score str bank live startup in
    let e = first_score bank live startup in
    let others = other_scores bank live startup in
    All
      (λ s. (s.1 ≤ 100) × (s.1 ≤ (top_of e others).1) × ((low_of e others).1 ≤ s.1))
      scored.dimension_scores
    × (2 * (5 * scored.overall_provisional) ≤ 2 * total scored.dimension_scores + 5)
    × (2 * total scored.dimension_scores ≤ 2 * (5 * scored.overall_provisional) + 5)
    × ((low_of e others).1 ≤ scored.overall_provisional)
    × (scored.overall_provisional ≤ (top_of e others).1)
    × (scored.narrative ≡ narrative_of str (top_of e others) (low_of e others))
score_lem_example = score_lem str bank live startup
