-- ===== src/Health/Decisions.antt =====
-- What a new score leaves of the recommendations (app/services/health_score/recommendations.py).
use Prim.Native.String.{String}
use package.text.Mathlib.TextPositions.{eq_refl}
use cofoundaz_api.Prelude.{
  ℕ, ◌+◌, ◌≡◌, refl, ◌∙◌, Bool, true, false, not, Option, none, some, List, [], ◌∷◌, ◌==◌, ◌&&◌,
  first, where_all, count, count-append, update_where, arith, inl, inr, Bool-cases, Option-cases,
  All, All-imp, All-first, All-append, All-update,
}
use cofoundaz_api.Health.{
  HealthRecommendation, CatalogEntry, Candidate, is_accepted, is_dismissed, recommendation_catalog,
  triggered, ranked, is_candidate, is_stale, is_row, refresh, new_row, upsert_found, upsert_all,
  generate_recommendations,
}

abbrev Test : Type 0
Test = HealthRecommendation → Bool

count-kept :
    (p q : Test) (rows : List HealthRecommendation)
    → ((r : HealthRecommendation) → q r ≡ true → p r ≡ true)
    → count q (where_all p rows) ≡ count q rows
count-kept p q [] h = refl
count-kept p q (c ∷ rows) h = ground (arith, h c, count-kept p q rows h)

count-dropped :
    (p q : Test) (rows : List HealthRecommendation)
    → ((r : HealthRecommendation) → q r ≡ true → p r ≡ false)
    → count q (where_all p rows) ≡ 0
count-dropped p q [] h = refl
count-dropped p q (c ∷ rows) h = ground (arith, h c, count-dropped p q rows h)

count-untouched :
    (p q : Test) (f : HealthRecommendation → HealthRecommendation)
    (rows : List HealthRecommendation)
    → All (λ (r : HealthRecommendation). p r ≡ true → q (f r) ≡ q r) rows
    → count q (update_where p f rows) ≡ count q rows
count-untouched p q f [] h = refl
count-untouched p q f (c ∷ rows) h = ground (arith, h.0, count-untouched p q f rows h.1)

-- Two rows that have one id, the primary key, agree on whether they are dismissed.
Agree : HealthRecommendation → HealthRecommendation → Type 0
Agree r x = (r.id == x.id) ≡ true → is_dismissed r.status ≡ is_dismissed x.status

-- A row agrees with each of a list.
AgreesWith : List HealthRecommendation → HealthRecommendation → Type 0
unfolding Agree
AgreesWith existing r = All (Agree r) existing

-- A table in which an id belongs to one row.
unfoldable pub IsKeyed : List HealthRecommendation → Type 0
unfolding AgreesWith
IsKeyed rows = All (AgreesWith rows) rows

All-where :
    (P : HealthRecommendation → Type 0) (p : Test) (rows : List HealthRecommendation)
    → All P rows
    → All P (where_all p rows)
All-where P p [] h = tt
All-where P p (r ∷ rows) h = elim (Bool-cases (p r)) [
  | inl t ↦ rw t (h.0, All-where P p rows h.1)
  | inr f ↦ rw f (All-where P p rows h.1)
]

IsKeyed-where :
    (p : Test) (rows : List HealthRecommendation) → IsKeyed rows → IsKeyed (where_all p rows)
unfolding IsKeyed AgreesWith
IsKeyed-where p rows keyed = All-where (AgreesWith (where_all p rows)) p rows (
    All-imp {P = AgreesWith rows} {Q = AgreesWith (where_all p rows)} rows
      (λ r h. All-where (Agree r) p rows h) keyed)

-- A row that a lookup found and that is not dismissed: no row of the table with its id is.
decided :
    (existing rows : List HealthRecommendation) (look : Test) (row : HealthRecommendation)
    → All (AgreesWith existing) rows
    → first look existing ≡ some row
    → is_dismissed row.status ≡ false
    → All
        (λ (r : HealthRecommendation). (r.id == row.id) ≡ true → is_dismissed r.status ≡ false)
        rows
unfolding Agree AgreesWith
decided existing rows look row agree found f =
    All-imp {P = AgreesWith existing}
      {Q = λ r. (r.id == row.id) ≡ true → is_dismissed r.status ≡ false} rows
      (λ r h t. All-first (Agree r) look existing row h found t ∙ f) agree

-- A test that no new row passes and no refreshed row passes anew.
upsert_found-count :
    (q : Test) (id startup_id priority : ℕ) (e : CatalogEntry)
    (existing rows : List HealthRecommendation) (look : Test)
    → All (AgreesWith existing) rows
    → q (new_row id startup_id priority e) ≡ false
    → ((r : HealthRecommendation) → is_dismissed r.status ≡ false → q (refresh priority e r) ≡ q r)
    → count q (upsert_found id startup_id priority e rows (first look existing)) ≡ count q rows
upsert_found-count q id s priority e existing rows look agree fresh same =
    elim (Option-cases (first look existing)) [
      | inl n ↦ rw n (count-append q rows (new_row id s priority e ∷ []) ∙ rw fresh (omega arith))
      | inr (row, found) ↦ elim (Bool-cases (is_dismissed row.status)) [
        | inl t ↦ rw found (rw t refl)
        | inr f ↦ rw found (
            rw f (
              count-untouched _ q (refresh priority e) rows (
                All-imp {P = λ r. (r.id == row.id) ≡ true → is_dismissed r.status ≡ false}
                  {Q = λ r. (r.id == row.id) ≡ true → q (refresh priority e r) ≡ q r} rows
                  (λ r h t. same r (h t)) (decided existing rows look row agree found f))))
      ]
    ]

agrees_fresh :
    (existing : List HealthRecommendation) (id startup_id priority : ℕ) (e : CatalogEntry)
    → All (λ (x : HealthRecommendation). (id == x.id) ≡ false) existing
    → AgreesWith existing (new_row id startup_id priority e)
unfolding AgreesWith Agree
agrees_fresh existing id s priority e h =
    All-imp {P = λ x. (id == x.id) ≡ false} {Q = Agree (new_row id s priority e)} existing
      (λ x f t. ground arith) h

upsert_found-agrees :
    (id startup_id priority : ℕ) (e : CatalogEntry) (existing rows : List HealthRecommendation)
    (found : Option HealthRecommendation)
    → All (AgreesWith existing) rows
    → All (λ (x : HealthRecommendation). (id == x.id) ≡ false) existing
    → All (AgreesWith existing) (upsert_found id startup_id priority e rows found)
unfolding AgreesWith Agree
upsert_found-agrees id s priority e existing rows none agree fresh =
    All-append (AgreesWith existing) rows _ agree (agrees_fresh existing id s priority e fresh, tt)
upsert_found-agrees id s priority e existing rows (some row) agree fresh =
    elim (Bool-cases (is_dismissed row.status)) [
      | inl t ↦ rw t agree
      | inr f ↦ rw f (
          All-update (AgreesWith existing) (λ (r : HealthRecommendation). r.id == row.id)
            (refresh priority e) rows (λ r t h. h) agree)
    ]

upsert_all-count :
    (q : Test) (new_id : ℕ → ℕ) (startup_id : ℕ) (existing : List HealthRecommendation)
    (priority : ℕ) (candidates : List Candidate) (rows : List HealthRecommendation)
    → All (AgreesWith existing) rows
    → ((n : ℕ) → All (λ (x : HealthRecommendation). (new_id n == x.id) ≡ false) existing)
    → ((id n : ℕ) (c : Candidate)
        → is_candidate candidates c.entry.key ≡ true
        → q (new_row id startup_id n c.entry) ≡ false)
    → ((n : ℕ) (e : CatalogEntry) (r : HealthRecommendation)
        → is_dismissed r.status ≡ false
        → q (refresh n e r) ≡ q r)
    → count q (upsert_all new_id startup_id existing priority candidates rows) ≡ count q rows
unfolding upsert_all
upsert_all-count q new_id s existing priority [] rows agree ids fresh same = refl
upsert_all-count q new_id s existing priority (c ∷ candidates) rows agree ids fresh same =
    let look = is_row s c.entry.key in
    let next = upsert_found (new_id priority) s priority c.entry rows (first look existing) in
    upsert_all-count q new_id s existing (priority + 1) candidates next
      (upsert_found-agrees (new_id priority) s priority c.entry existing rows (first look existing)
        agree (ids priority))
      ids (λ id n d e. fresh id n d (rw e (ground arith))) same
    ∙ upsert_found-count q (new_id priority) s priority c.entry existing rows look agree
        (fresh (new_id priority) priority c (rw (eq_refl c.entry.key) refl))
        (λ r f. same priority c.entry r f)

-- Whatever the new scores: of the recommendations that were dismissed, none is changed, removed or
-- added; with any id, startup and key there are as many accepted rows as before; and no pending row of
-- the startup is left whose key is not among those that the scores trigger. An id belongs to one
-- row, and the ids of new rows are new.
pub generate_recommendations_lem :
    (new_id : ℕ → ℕ) (startup_id : ℕ) (dimension_scores : List (String × ℕ))
    (rows : List HealthRecommendation) (q : HealthRecommendation → Bool) (g : ℕ → ℕ → String → Bool)
    → IsKeyed rows
    → ((n : ℕ) → All (λ (x : HealthRecommendation). (new_id n == x.id) ≡ false) rows)
    → let rows' = generate_recommendations new_id startup_id dimension_scores rows in
      let candidates = ranked (triggered dimension_scores recommendation_catalog) in
      let gone = λ (x : HealthRecommendation). is_dismissed x.status && q x in
      let taken = λ (x : HealthRecommendation). is_accepted x.status && g x.id x.startup_id x.key in
      (count gone rows' ≡ count gone rows)
      × (count taken rows' ≡ count taken rows)
      × (count (is_stale candidates startup_id) rows' ≡ 0)
unfolding generate_recommendations IsKeyed
generate_recommendations_lem new_id s scores rows q g keyed ids =
    let candidates = ranked (triggered scores recommendation_catalog) in
    let kept = λ (x : HealthRecommendation). not (is_stale candidates s x) in
    let existing = where_all kept rows in
    let agree = IsKeyed-where kept rows keyed in
    let ids' = λ (n : ℕ). All-where _ kept rows (ids n) in
    let gone = λ (x : HealthRecommendation). is_dismissed x.status && q x in
    let taken = λ (x : HealthRecommendation). is_accepted x.status && g x.id x.startup_id x.key in
    (
      upsert_all-count gone new_id s existing 1 candidates existing agree ids' (λ id n c e. refl)
            (λ n e x h. ground arith)
          ∙ count-kept kept gone rows (λ x h. ground arith),
      upsert_all-count taken new_id s existing 1 candidates existing agree ids' (λ id n c e. refl)
            (λ n e x h. refl)
          ∙ count-kept kept taken rows (λ x h. ground arith),
      upsert_all-count (is_stale candidates s) new_id s existing 1 candidates existing agree ids'
            (λ id n c e. ground arith) (λ n e x h. refl)
          ∙ count-dropped kept (is_stale candidates s) rows (λ x h. ground arith),
    )
