-- ===== src/Assessment.antt =====
-- The kickoff assessment (app/services/assessment): the question bank's types, and the engine that
-- picks questions and checks answers.
pub mod Engine
pub mod Scoring
pub mod Service
use Prim.Native.String.{String}
use package.text.Mathlib.Text.{◌==◌ as str_eq}
use cofoundaz_api.Prelude.{
  ℕ, Bool, true, false, Option, none, some, List, [], ◌∷◌, if◌then◌else◌, any, first,
}

pub data Dimension : Type 0 where
  product market money legal team : Dimension

pub data QType : Type 0 where
  single_choice multi_choice scale_1_5 numeric_currency short_text : QType

-- A JSON value, as far as the engine looks at one. Of a float only the sign is read, of a text also
-- whether it is blank, and the parts of an object are not read at all.
mutual
  pub data Value : Type 0 where
    null : Value
    boolean : Bool → Value
    integer : ℕ → Value
    negative : ℕ → Value
    float : Bool → Value
    text : String → Value
    array : Items → Value
    object : Value

  pub data Items : Type 0 where
    nil : Items
    cons : Value → Items → Items

-- What a `show_if` leaf tests a value against: a leaf has one of the keys `in` and `eq`.
pub data Test : Type 0 where
  one_of : List String → Test
  equals : String → Test

mutual
  pub data Condition : Type 0 where
    all_of : Conditions → Condition
    any_of : Conditions → Condition
    field : String → Test → Condition
    answer : String → Test → Condition
    always : Condition

  pub data Conditions : Type 0 where
    none_left : Conditions
    and_then : Condition → Conditions → Conditions

-- `scoring` without its key "max", which is `max_points`.
pub record Question : Type 0 where
  pub key : String
  pub dimension : Dimension
  pub section : String
  pub qtype : QType
  pub scoring : List (String × ℕ)
  pub max_points : ℕ
  pub options : List String
  pub show_if : Option Condition

pub record Bank : Type 0 where
  pub version : String
  pub questions : List Question

abbrev pub Answers : Type 0
Answers = List (String × Value)

-- `answers.get(key)`
pub get_answer : String → Answers → Option Value
get_answer key [] = none
get_answer key ((k, v) ∷ answers) = if str_eq k key then some v else get_answer key answers

-- `key in answers`
abbrev pub has_answer : String → Answers → Bool
has_answer key answers = any (λ (e : String × Value). str_eq e.0 key) answers

pub question_by_key : Bank → String → Option Question
question_by_key bank key = first (λ (q : Question). str_eq q.key key) bank.questions
