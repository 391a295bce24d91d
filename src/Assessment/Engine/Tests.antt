-- ===== src/Assessment/Engine/Tests.antt =====
-- A bank of three questions, the second asked of some answers to the first.
use Prim.Native.String.{String}
use cofoundaz_api.Prelude.{◌≡◌, refl, false, some, none, [], ◌∷◌, All, ◌⊎◌}
use cofoundaz_api.Assessment.{
  get_answer, Bank, Question, Dimension, QType, Value, Items, Condition, Test, Answers,
}
use cofoundaz_api.Assessment.Engine.{
  Startup, next_question, validate_answer, valid, invalid, unhashable,
}
use cofoundaz_api.Assessment.Engine.Next.{IsSettled, IsFirstOpen, next_question-cases}

abbrev stage : Question
stage = record {
  key = "product_stage";
  dimension = Dimension.product;
  section = "Product";
  qtype = QType.single_choice;
  scoring = ("idea", 1) ∷ ("live", 4) ∷ [];
  max_points = 4;
  options = "idea" ∷ "live" ∷ [];
  show_if = none;
}

abbrev revenue : Question
revenue = record {
  key = "money_revenue";
  dimension = Dimension.money;
  section = "Money";
  qtype = QType.numeric_currency;
  scoring = [];
  max_points = 0;
  options = [];
  show_if = some (Condition.answer "product_stage" (Test.one_of ("live" ∷ [])));
}

abbrev bank : Bank
bank = record { version = "v1"; questions = stage ∷ revenue ∷ [] }

abbrev startup : Startup
startup name = none

abbrev answers : String → Answers
answers s = ("product_stage", Value.text s) ∷ []

the_questions :
    (next_question bank [] startup ≡ some stage)
    × (next_question bank (answers "live") startup ≡ some revenue)
    × (next_question bank (answers "idea") startup ≡ none)
unfolding next_question get_answer
the_questions = (refl, refl, refl)

-- A list posted as the answer to a question with one choice cannot be hashed.
the_verdicts :
    (validate_answer (λ s. false) stage (Value.text "idea") ≡ valid)
    × (validate_answer (λ s. false) stage (Value.text "mvp") ≡ invalid)
    × (validate_answer (λ s. false) stage (Value.array Items.nil) ≡ unhashable)
unfolding validate_answer
the_verdicts = (refl, refl, refl)

next_question-cases_example :
    ((next_question bank (answers "live") startup ≡ none)
      × All (IsSettled (answers "live") startup) bank.questions)
    ⊎ ((q : Question) × (next_question bank (answers "live") startup ≡ some q)
        × IsFirstOpen (answers "live") startup q bank.questions)
next_question-cases_example = next_question-cases bank (answers "live") startup
