-- ===== src/Health/Tests.antt =====
-- A startup that dismissed one recommendation, accepted one and has one that has become stale.
use Prim.Native.String.{String}
use package.text.Mathlib.Text.{◌==◌ as str_eq}
use cofoundaz_api.Prelude.{
  ℕ, ◌+◌, ◌≡◌, refl, ◌==◌, ◌&&◌, ltb, count, All, true, false, subst, if◌then◌else◌, arith, none,
  List, [], ◌∷◌,
}
use cofoundaz_api.Health.{
  HealthRecommendation, RecommendationStatus, pending, accepted, dismissed, is_dismissed,
  is_accepted, is_stale, ranked, triggered, recommendation_catalog, upsert_all,
  generate_recommendations,
}
use cofoundaz_api.Health.Decisions.{IsKeyed, generate_recommendations_lem}

abbrev row : ℕ → String → RecommendationStatus → HealthRecommendation
row id key status = record {
  id = id;
  startup_id = 7;
  dimension = "market";
  key = key;
  estimated_lift = 7;
  effort = "low";
  status = status;
  priority = 1;
  resolved_at = none;
}

abbrev table : List HealthRecommendation
table =
    row 1 "market.icp_definition" dismissed
    ∷ row 2 "market.competitor_map" accepted
    ∷ row 3 "team.hiring_plan" pending
    ∷ []

abbrev scores : List (String × ℕ)
scores = ("product", 80) ∷ ("market", 30) ∷ ("money", 90) ∷ ("legal", 55) ∷ ("team", 70) ∷ []

the_rows :
    count (λ x. x.startup_id == 7) (generate_recommendations (λ n. n + 10) 7 scores table) ≡ 3
unfolding generate_recommendations ranked triggered upsert_all
the_rows = refl

off : {A : Type 0} → false ≡ true → A
off e = absurd (subst (λ b. if b then ⊥ else Unit) e tt)

table-IsKeyed : IsKeyed table
unfolding IsKeyed
table-IsKeyed = (
  (λ t. refl, (λ t. off t, (λ t. off t, tt))),
  ((λ t. off t, (λ t. refl, (λ t. off t, tt))), ((λ t. off t, (λ t. off t, (λ t. refl, tt))), tt)),
)

fresh_ids : (n : ℕ) → All (λ (x : HealthRecommendation). ((n + 10) == x.id) ≡ false) table
fresh_ids n = (ground arith, (ground arith, (ground arith, tt)))

generate_recommendations_lem_example :
    let rows' = generate_recommendations (λ n. n + 10) 7 scores table in
    let candidates = ranked (triggered scores recommendation_catalog) in
    (count (λ x. is_dismissed x.status && ltb 0 x.priority) rows'
      ≡ count (λ x. is_dismissed x.status && ltb 0 x.priority) table)
    × (count (λ x. is_accepted x.status && str_eq x.key "market.competitor_map") rows'
        ≡ count (λ x. is_accepted x.status && str_eq x.key "market.competitor_map") table)
    × (count (is_stale candidates 7) rows' ≡ 0)
generate_recommendations_lem_example =
    generate_recommendations_lem (λ n. n + 10) 7 scores table (λ x. ltb 0 x.priority)
      (λ id startup_id key. str_eq key "market.competitor_map") table-IsKeyed fresh_ids
