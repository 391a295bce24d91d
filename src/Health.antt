-- ===== src/Health.antt =====
-- The recommendations of the health score (app/services/health_score/recommendations.py, config.py
-- and the table of app/db/models/health_score.py). Weights are hundredths. A startup and a key
-- identify a row, by the table's unique index, so that the dict of the existing rows is the list of
-- them. The titles and texts of the catalogue are not modelled: a row copies them.
pub mod Decisions
mod Tests
use Prim.Native.String.{String}
use package.text.Mathlib.Text.{◌==◌ as str_eq}
use cofoundaz_api.Prelude.{
  ℕ, ◌+◌, ◌-◌, ◌*◌, Bool, true, false, not, Option, none, some, List, [], ◌∷◌, ◌++◌, ◌==◌, ◌&&◌,
  ◌||◌, ltb, any, if◌then◌else◌, first, where_all, update_where,
}

pub data RecommendationStatus : Type 0 where
  pending accepted dismissed : RecommendationStatus

abbrev pub is_pending : RecommendationStatus → Bool
is_pending pending = true
is_pending _ = false

abbrev pub is_dismissed : RecommendationStatus → Bool
is_dismissed dismissed = true
is_dismissed _ = false

abbrev pub is_accepted : RecommendationStatus → Bool
is_accepted accepted = true
is_accepted _ = false

pub record HealthRecommendation : Type 0 where
  pub id : ℕ
  pub startup_id : ℕ
  pub dimension : String
  pub key : String
  pub estimated_lift : ℕ
  pub effort : String
  pub status : RecommendationStatus
  pub priority : ℕ
  pub resolved_at : Option ℕ

-- An entry of the catalogue, with its dimension.
pub record CatalogEntry : Type 0 where
  pub dimension : String
  pub key : String
  pub estimated_lift : ℕ
  pub effort : String
  pub triggers_below : ℕ

abbrev entry : String → String → ℕ → String → ℕ → CatalogEntry
entry dimension key estimated_lift effort triggers_below = record {
  dimension = dimension;
  key = key;
  estimated_lift = estimated_lift;
  effort = effort;
  triggers_below = triggers_below;
}

-- `RECOMMENDATION_CATALOG`
abbrev pub recommendation_catalog : List CatalogEntry
recommendation_catalog =
    entry "product" "product.define_mvp" 8 "medium" 60
    ∷ entry "product" "product.user_feedback_loop" 6 "low" 50
    ∷ entry "market" "market.icp_definition" 7 "low" 60
    ∷ entry "market" "market.competitor_map" 5 "low" 50
    ∷ entry "money" "money.runway_model" 8 "medium" 60
    ∷ entry "money" "money.pricing_experiment" 6 "medium" 50
    ∷ entry "legal" "legal.incorporate" 9 "high" 60
    ∷ entry "legal" "legal.founder_agreement" 7 "medium" 50
    ∷ entry "team" "team.roles_clarity" 7 "medium" 60
    ∷ entry "team" "team.hiring_plan" 5 "low" 50
    ∷ []

-- `DIMENSION_WEIGHTS`
abbrev dimension_weights : List (String × ℕ)
dimension_weights =
    ("product", 20) ∷ ("market", 20) ∷ ("money", 20) ∷ ("legal", 20) ∷ ("team", 20) ∷ []

abbrev lookup_or : ℕ → String → List (String × ℕ) → ℕ
lookup_or default key [] = default
lookup_or default key ((k, v) ∷ d) = if str_eq k key then v else lookup_or default key d

pub record Candidate : Type 0 where
  pub rank_val : ℕ
  pub entry : CatalogEntry

-- The entries that the scores trigger; a dimension without a score counts as 50.
pub triggered : List (String × ℕ) → List CatalogEntry → List Candidate
triggered dimension_scores [] = []
triggered dimension_scores (e ∷ entries) =
    let rest = triggered dimension_scores entries in
    let score = lookup_or 50 e.dimension dimension_scores in
    if ltb score e.triggers_below
    then record {
      rank_val = (e.triggers_below - score) * lookup_or 0 e.dimension dimension_weights;
      entry = e;
    }
      ∷ rest
    else rest

abbrev is_ranked_below : Candidate → Candidate → Bool
is_ranked_below c d =
    ltb c.rank_val d.rank_val
    || ((c.rank_val == d.rank_val) && ltb c.entry.estimated_lift d.entry.estimated_lift)

abbrev insert_ranked : Candidate → List Candidate → List Candidate
insert_ranked c [] = c ∷ []
insert_ranked c (d ∷ candidates) =
    if is_ranked_below c d then d ∷ insert_ranked c candidates else c ∷ d ∷ candidates

-- `candidates.sort(..., reverse=True)`, which keeps the order of equals.
pub ranked : List Candidate → List Candidate
ranked [] = []
ranked (c ∷ candidates) = insert_ranked c (ranked candidates)

abbrev pub is_candidate : List Candidate → String → Bool
is_candidate candidates key = any (λ (c : Candidate). str_eq c.entry.key key) candidates

-- The rows that the clean-up deletes.
abbrev pub is_stale : List Candidate → ℕ → HealthRecommendation → Bool
is_stale candidates startup_id r =
    (r.startup_id == startup_id) && is_pending r.status && not (is_candidate candidates r.key)

abbrev pub is_row : ℕ → String → HealthRecommendation → Bool
is_row startup_id key r = (r.startup_id == startup_id) && str_eq r.key key

abbrev pub refresh : ℕ → CatalogEntry → HealthRecommendation → HealthRecommendation
refresh priority e r = record r { priority = priority; estimated_lift = e.estimated_lift }

abbrev pub new_row : ℕ → ℕ → ℕ → CatalogEntry → HealthRecommendation
new_row id startup_id priority e = record {
  id = id;
  startup_id = startup_id;
  dimension = e.dimension;
  key = e.key;
  estimated_lift = e.estimated_lift;
  effort = e.effort;
  status = pending;
  priority = priority;
  resolved_at = none;
}

-- One turn of the loop, with the row that existed before it.
abbrev pub upsert_found :
    ℕ
    → ℕ
    → ℕ
    → CatalogEntry
    → List HealthRecommendation
    → Option HealthRecommendation
    → List HealthRecommendation
upsert_found id startup_id priority e rows none = rows ++ new_row id startup_id priority e ∷ []
upsert_found id startup_id priority e rows (some row) =
    if is_dismissed row.status
    then rows
    else update_where (λ (r : HealthRecommendation). r.id == row.id) (refresh priority e) rows

pub upsert_all :
    (ℕ → ℕ)
    → ℕ
    → List HealthRecommendation
    → ℕ
    → List Candidate
    → List HealthRecommendation
    → List HealthRecommendation
upsert_all new_id startup_id existing priority [] rows = rows
upsert_all new_id startup_id existing priority (c ∷ candidates) rows =
    upsert_all new_id startup_id existing (priority + 1) candidates (
      upsert_found (new_id priority) startup_id priority c.entry rows
        (first (is_row startup_id c.entry.key) existing))

pub generate_recommendations :
    (ℕ → ℕ) → ℕ → List (String × ℕ) → List HealthRecommendation → List HealthRecommendation
unfolding ranked triggered
generate_recommendations new_id startup_id dimension_scores rows =
    let candidates = ranked (triggered dimension_scores recommendation_catalog) in
    let existing =
      where_all (λ (r : HealthRecommendation). not (is_stale candidates startup_id r)) rows in
    upsert_all new_id startup_id existing 1 candidates existing
