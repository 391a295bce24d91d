-- ===== src/Assessment/Engine.antt =====
-- app/services/assessment/engine.py. The attributes of a startup are a parameter: the text of a
-- field, if it is set.
pub mod Next
mod Tests
use Prim.Native.String.{String}
use package.text.Mathlib.Text.{◌==◌ as str_eq}
use cofoundaz_api.Prelude.{
  ℕ, Bool, true, false, Option, none, some, List, [], ◌∷◌, ◌&&◌, ◌||◌, not, leb, if◌then◌else◌, any,
}
use cofoundaz_api.Assessment.{
  Question, Bank, Answers, QType, single_choice, multi_choice, scale_1_5, numeric_currency,
  short_text, Value, Items, null, boolean, integer, negative, float, text, array, object, nil, cons,
  Test, one_of, equals, Condition, Conditions, all_of, any_of, field, answer, always, none_left,
  and_then, get_answer, has_answer,
}

abbrev pub Startup : Type 0
Startup = String → Option String

abbrev pub member : String → List String → Bool
member s xs = any (λ x. str_eq x s) xs

abbrev test_text : Test → String → Bool
test_text (one_of xs) s = member s xs
test_text (equals x) s = str_eq x s

abbrev test_value : Test → Value → Bool
test_value t (text s) = test_text t s
test_value t _ = false

-- A JSON `null` is Python's `None`.
abbrev test_answer : Test → Option Value → Bool
test_answer t none = false
test_answer t (some v) = test_value t v

abbrev test_field : Test → Option String → Bool
test_field t none = false
test_field t (some s) = test_text t s

unfoldable mutual
  -- `_cond`
  pub cond_holds : Answers → Startup → Condition → Bool
  cond_holds answers startup (all_of cs) = all_hold answers startup cs
  cond_holds answers startup (any_of cs) = any_holds answers startup cs
  cond_holds answers startup (field name t) = test_field t (startup name)
  cond_holds answers startup (answer key t) = test_answer t (get_answer key answers)
  cond_holds answers startup always = true

  pub all_hold : Answers → Startup → Conditions → Bool
  all_hold answers startup none_left = true
  all_hold answers startup (and_then c cs) =
      cond_holds answers startup c && all_hold answers startup cs

  pub any_holds : Answers → Startup → Conditions → Bool
  any_holds answers startup none_left = false
  any_holds answers startup (and_then c cs) =
      cond_holds answers startup c || any_holds answers startup cs

unfoldable pub is_applicable : Question → Answers → Startup → Bool
unfolding cond_holds
is_applicable q answers startup = elim q.show_if [
  | none ↦ true
  | some c ↦ cond_holds answers startup c
]

-- The loop over the bank: skip what is answered, stop at what applies.
pub next_of : List Question → Answers → Startup → Option Question
unfolding is_applicable
next_of [] answers startup = none
next_of (q ∷ questions) answers startup =
    let rest = next_of questions answers startup in
    if has_answer q.key answers
    then rest
    else if is_applicable q answers startup
    then some q
    else rest

unfoldable pub next_question : Bank → Answers → Startup → Option Question
unfolding next_of
next_question bank answers startup = next_of bank.questions answers startup

-- The ways `validate_answer` ends: it returns, raises INVALID_ANSWER, or leaves by the `TypeError`
-- of a set that is asked for a value that cannot be hashed.
pub data Verdict : Type 0 where
  valid invalid unhashable : Verdict

abbrev is_hashable : Value → Bool
is_hashable (array _) = false
is_hashable object = false
is_hashable _ = true

abbrev in_options : Question → Value → Bool
in_options q (text s) = member s q.options
in_options q _ = false

-- `any(v not in opts for v in value)`, stopping at the first that is not in.
pub check_items : Question → Items → Verdict
check_items q nil = valid
check_items q (cons v vs) =
    let rest = check_items q vs in
    if not (is_hashable v) then unhashable else if in_options q v then rest else invalid

-- The test of a list, which may not be empty.
abbrev check_list : Question → Items → Verdict
check_list q nil = invalid
check_list q (cons v vs) = check_items q (cons v vs)

abbrev verdict : Bool → Verdict
verdict b = if b then valid else invalid

-- `is_blank` is `not s.strip()`.
unfoldable pub validate_answer : (String → Bool) → Question → Value → Verdict
validate_answer is_blank q value = elim q.qtype [
  | single_choice ↦ if is_hashable value then verdict (in_options q value) else unhashable
  | multi_choice ↦ elim value [ array vs ↦ check_list q vs | _ ↦ invalid ]
  | scale_1_5 ↦ elim value [ integer n ↦ verdict (leb 1 n && leb n 5) | _ ↦ invalid ]
  | numeric_currency ↦ elim value [
    | integer n ↦ valid
    | float below_zero ↦ verdict (not below_zero)
    | _ ↦ invalid
  ]
  | short_text ↦ elim value [ text s ↦ verdict (not (is_blank s)) | _ ↦ invalid ]
]
