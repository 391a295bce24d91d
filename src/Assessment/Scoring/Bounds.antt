-- ===== src/Assessment/Scoring/Bounds.antt =====
-- The bounds of the scores (app/services/assessment/scoring.py).
use Prim.Native.String.{String}
use cofoundaz_api.Prelude.{
  ℕ, ◌+◌, ◌*◌, ◌≤◌, ◌≡◌, sym, subst, refl, [], ◌∷◌, ltb, All, round_div, round_div_bounds, arith,
  inl, inr, Bool-cases,
}
use cofoundaz_api.Assessment.{Dimension, product, market, money, legal, team, Bank, Answers}
use cofoundaz_api.Assessment.Engine.{Startup}
use cofoundaz_api.Assessment.Scoring.{
  narrative_of, Scores, dimension_score, total, top_of, low_of, first_score, other_scores, score,
}

abbrev Below : Dimension × ℕ → Scores → Type 0
Below best scores = All (λ e. e.1 ≤ best.1) scores

abbrev Above : Dimension × ℕ → Scores → Type 0
Above best scores = All (λ e. best.1 ≤ e.1) scores

top_of-ge : (best : Dimension × ℕ) (scores : Scores) → best.1 ≤ (top_of best scores).1
top_of-ge best [] = omega arith
top_of-ge best (e ∷ scores) = ground (arith, top_of-ge e scores, top_of-ge best scores)

top_of-Below : (best : Dimension × ℕ) (scores : Scores) → Below (top_of best scores) scores
top_of-Below best [] = tt
top_of-Below best (e ∷ scores) = elim (Bool-cases (ltb best.1 e.1)) [
  | inl t ↦
      let same : top_of best (e ∷ scores) ≡ top_of e scores = rw t refl in
      subst (λ b. Below b (e ∷ scores)) (sym same) (top_of-ge e scores, top_of-Below e scores)
  | inr f ↦
      let l : e.1 ≤ best.1 = ground arith in
      let same : top_of best (e ∷ scores) ≡ top_of best scores = rw f refl in
      subst (λ b. Below b (e ∷ scores)) (sym same)
        (omega (arith, l, top_of-ge best scores), top_of-Below best scores)
]

low_of-le : (best : Dimension × ℕ) (scores : Scores) → (low_of best scores).1 ≤ best.1
low_of-le best [] = omega arith
low_of-le best (e ∷ scores) = ground (arith, low_of-le e scores, low_of-le best scores)

low_of-Above : (best : Dimension × ℕ) (scores : Scores) → Above (low_of best scores) scores
low_of-Above best [] = tt
low_of-Above best (e ∷ scores) = elim (Bool-cases (ltb e.1 best.1)) [
  | inl t ↦
      let same : low_of best (e ∷ scores) ≡ low_of e scores = rw t refl in
      subst (λ b. Above b (e ∷ scores)) (sym same) (low_of-le e scores, low_of-Above e scores)
  | inr f ↦
      let l : best.1 ≤ e.1 = ground arith in
      let same : low_of best (e ∷ scores) ≡ low_of best scores = rw f refl in
      subst (λ b. Above b (e ∷ scores)) (sym same)
        (omega (arith, l, low_of-le best scores), low_of-Above best scores)
]

dimension_score-le :
    (bank : Bank) (answers : Answers) (startup : Startup) (dim : Dimension)
    → dimension_score bank answers startup dim ≤ 100
unfolding dimension_score
dimension_score-le bank answers startup dim = omega arith

mean_between :
    (a b c d e lo hi r : ℕ)
    → (2 * (r * 5) ≤ 2 * (a + (b + (c + (d + (e + 0))))) + 5)
      × (2 * (a + (b + (c + (d + (e + 0))))) ≤ 2 * (r * 5) + 5)
    → (a ≤ hi) × (b ≤ hi) × (c ≤ hi) × (d ≤ hi) × (e ≤ hi)
    → (lo ≤ a) × (lo ≤ b) × (lo ≤ c) × (lo ≤ d) × (lo ≤ e)
    → (lo ≤ r) × (r ≤ hi)
mean_between a b c d e lo hi r (u, v) (h0, h1, h2, h3, h4) (l0, l1, l2, l3, l4) =
    (omega arith, omega arith)

-- The five scores are at most a hundred, the overall score is within half a point of their mean, so
-- that it lies between the lowest and the highest of them, and these two are the ones that the
-- narrative names.
pub score_lem :
    (str : ℕ → String) (bank : Bank) (answers : Answers) (startup : Startup)
    → let scored = score str bank answers startup in
      let e = first_score bank answers startup in
      let others = other_scores bank answers startup in
      All
        (λ s. (s.1 ≤ 100) × (s.1 ≤ (top_of e others).1) × ((low_of e others).1 ≤ s.1))
        scored.dimension_scores
      × (2 * (5 * scored.overall_provisional) ≤ 2 * total scored.dimension_scores + 5)
      × (2 * total scored.dimension_scores ≤ 2 * (5 * scored.overall_provisional) + 5)
      × ((low_of e others).1 ≤ scored.overall_provisional)
      × (scored.overall_provisional ≤ (top_of e others).1)
      × (scored.narrative ≡ narrative_of str (top_of e others) (low_of e others))
unfolding score
score_lem str bank answers startup =
    let e = first_score bank answers startup in
    let others = other_scores bank answers startup in
    let score_of = dimension_score bank answers startup in
    let below = top_of-Below e others in
    let above = low_of-Above e others in
    let b = round_div_bounds (total (e ∷ others)) 5 (omega arith) in
    let le = dimension_score-le bank answers startup in
    let r = round_div (total (e ∷ others)) 5 in
    let upper = top_of-ge e others in
    let lower = low_of-le e others in
    let mean =
      mean_between (score_of product) (score_of market) (score_of money) (score_of legal)
        (score_of team) (low_of e others).1 (top_of e others).1 r b
        (upper, below.0, below.1.0, below.1.1.0, below.1.1.1.0)
        (lower, above.0, above.1.0, above.1.1.0, above.1.1.1.0) in
    (
      (
        (le product, upper, lower),
        (
          (le market, below.0, above.0),
          (
            (le money, below.1.0, above.1.0),
            ((le legal, below.1.1.0, above.1.1.0), ((le team, below.1.1.1.0, above.1.1.1.0), tt)),
          ),
        ),
      ),
      omega (arith, b),
      omega (arith, b),
      mean.0,
      mean.1,
      refl,
    )
