-- ===== src/Assessment/Scoring.antt =====
-- app/services/assessment/scoring.py. A quotient is rounded exactly, where the source divides as
-- floats. The values scored are ones that the engine accepts (`validate_answer`): a scale has an
-- integer, a single choice a text and a multiple choice a list of texts; no other value is scored.
pub mod Bounds
use Prim.Native.String.{String, ◌++◌ as str_append}
use package.text.Mathlib.Text.{◌==◌ as str_eq}
use cofoundaz_api.Prelude.{
  ℕ, ◌+◌, ◌*◌, min, Bool, true, false, ◌||◌, not, Option, none, some, List, [], ◌∷◌, ◌==◌, ltb,
  if◌then◌else◌, length, map, round_div,
}
use cofoundaz_api.Assessment.{
  Dimension, product, market, money, legal, team, QType, single_choice, multi_choice, scale_1_5,
  numeric_currency, short_text, Question, Bank, Answers, Value, Items, integer, text, array, nil,
  cons, get_answer,
}
use cofoundaz_api.Assessment.Engine.{Startup, is_applicable}

-- `q.scoring.get(value, 0)`
pub points_for : String → List (String × ℕ) → ℕ
points_for s [] = 0
points_for s ((option, n) ∷ scoring) = if str_eq option s then n else points_for s scoring

abbrev value_points : List (String × ℕ) → Value → ℕ
unfolding points_for
value_points scoring (text s) = points_for s scoring
value_points scoring _ = 0

pub sum_points : List (String × ℕ) → Items → ℕ
unfolding value_points
sum_points scoring nil = 0
sum_points scoring (cons v vs) = value_points scoring v + sum_points scoring vs

-- `_points`
pub points : Question → Value → ℕ
unfolding value_points sum_points
points q value = elim q.qtype [
  | scale_1_5 ↦ elim value [ integer n ↦ n | _ ↦ 0 ]
  | single_choice ↦ value_points q.scoring value
  | multi_choice ↦ elim value [ array vs ↦ min (sum_points q.scoring vs) q.max_points | _ ↦ 0 ]
  | numeric_currency ↦ 0
  | short_text ↦ 0
]

abbrev dimension_index : Dimension → ℕ
dimension_index product = 0
dimension_index market = 1
dimension_index money = 2
dimension_index legal = 3
dimension_index team = 4

-- A question counts for its own dimension only, and not at all if it is informational.
abbrev is_scored : Dimension → Question → Bool
is_scored dim q =
    if dimension_index q.dimension == dimension_index dim then not (q.max_points == 0) else false

abbrev scored_answer : Dimension → Answers → Startup → Question → Option Value
unfolding get_answer is_applicable
scored_answer dim answers startup q =
    if is_scored dim q
    then if is_applicable q answers startup then get_answer q.key answers else none
    else none

-- `earned` and `maxsum`.
pub totals : Dimension → Answers → Startup → List Question → ℕ × ℕ
unfolding points scored_answer
totals dim answers startup [] = (0, 0)
totals dim answers startup (q ∷ questions) =
    let (earned, maxsum) = totals dim answers startup questions in
    elim (scored_answer dim answers startup q) [
      | none ↦ (earned, maxsum)
      | some value ↦ (points q value + earned, q.max_points + maxsum)
    ]

-- The natural numbers leave `max(0, pct)` nothing to do.
abbrev pub percent : ℕ → ℕ → ℕ
percent earned maxsum = min 100 (if maxsum == 0 then 50 else round_div (100 * earned) maxsum)

unfoldable pub dimension_score : Bank → Answers → Startup → Dimension → ℕ
unfolding totals
dimension_score bank answers startup dim =
    let (earned, maxsum) = totals dim answers startup bank.questions in percent earned maxsum

abbrev pub Scores : Type 0
Scores = List (Dimension × ℕ)

abbrev pub dimensions : List Dimension
dimensions = product ∷ market ∷ money ∷ legal ∷ team ∷ []

abbrev pub total : Scores → ℕ
total [] = 0
total ((d, n) ∷ scores) = n + total scores

-- `max` and `min` with a key: the first of the entries that tie.
abbrev pub top_of : Dimension × ℕ → Scores → Dimension × ℕ
top_of best [] = best
top_of best (e ∷ scores) = if ltb best.1 e.1 then top_of e scores else top_of best scores

abbrev pub low_of : Dimension × ℕ → Scores → Dimension × ℕ
low_of best [] = best
low_of best (e ∷ scores) = if ltb e.1 best.1 then low_of e scores else low_of best scores

abbrev pub dimension_name : Dimension → String
dimension_name product = "product"
dimension_name market = "market"
dimension_name money = "money"
dimension_name legal = "legal"
dimension_name team = "team"

pub record Scored : Type 0 where
  pub dimension_scores : Scores
  pub overall_provisional : ℕ
  pub narrative : String

abbrev pub narrative_of : (ℕ → String) → Dimension × ℕ → Dimension × ℕ → String
narrative_of str top low = str_append "Your strongest area is " (
    str_append (dimension_name top.0) (
      str_append " (" (
        str_append (str top.1) (
          str_append "). Focus next on "
            (str_append (dimension_name low.0) (str_append " (" (str_append (str low.1) ").")))))))

-- The scores of the dimensions, with the first of them apart.
abbrev pub first_score : Bank → Answers → Startup → Dimension × ℕ
first_score bank answers startup = (product, dimension_score bank answers startup product)

abbrev pub other_scores : Bank → Answers → Startup → Scores
other_scores bank answers startup =
    map (λ dim. (dim, dimension_score bank answers startup dim))
      (market ∷ money ∷ legal ∷ team ∷ [])

unfoldable pub score : (ℕ → String) → Bank → Answers → Startup → Scored
unfolding dimension_score
score str bank answers startup =
    let e = first_score bank answers startup in
    let others = other_scores bank answers startup in
    record {
      dimension_scores = e ∷ others;
      overall_provisional = round_div (total (e ∷ others)) (length (e ∷ others));
      narrative = narrative_of str (top_of e others) (low_of e others);
    }
