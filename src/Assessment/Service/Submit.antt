-- ===== src/Assessment/Service/Submit.antt =====
-- Submitting an answer (`submit_answer` of app/services/assessment/service.py).
use Prim.Native.String.{String}
use package.text.Mathlib.TextEquality.{eq_iff}
use package.text.Mathlib.TextPositions.{eq_refl}
use package.text.Mathlib.Text.{◌==◌ as str_eq}
use mathlib.Core.Bool.{false≢true}
use cofoundaz_api.Prelude.{
  ℕ, ◌≡◌, ◌≢◌, refl, sym, ap, ◌∙◌, ◌⊎◌, subst, Bool, true, false, Option, none, some, List, [], ◌∷◌,
  ◌++◌, ◌==◌, if◌then◌else◌, first, first-fits, first-update, update_where, arith, ⊎_elim, inl, inr,
  Bool-cases, Option-cases,
}
use cofoundaz_api.Assessment.{Question, Bank, Value, get_answer}
use cofoundaz_api.Assessment.Engine.{
  Startup, next_question, validate_answer, Verdict, valid, invalid, unhashable,
}
use cofoundaz_api.Assessment.Service.{
  Assessment, AssessmentAnswer, AssessmentDb, answered_map, is_row, set_value, upsert_answer,
  Submission, stored, raised, crashed, is_in_progress, store_answer, submit_answer,
}

str_eq_sound : (s t : String) → str_eq s t ≡ true → s ≡ t
str_eq_sound s t e = (eq_iff s t).0 e

-- The map of the answers is the lookup in the table.
abbrev value_of : Option AssessmentAnswer → Option Value
value_of none = none
value_of (some r) = some r.value_json

get_answer-answered_map :
    (id : ℕ) (key : String) (rows : List AssessmentAnswer)
    → get_answer key (answered_map id rows) ≡ value_of (first (is_row id key) rows)
unfolding get_answer answered_map
get_answer-answered_map id key [] = refl
get_answer-answered_map id key (r ∷ rows) = elim (Bool-cases (r.assessment_id == id)) [
  | inr f ↦ rw f (get_answer-answered_map id key rows)
  | inl t ↦ elim (Bool-cases (str_eq r.question_key key)) [
    | inl u ↦ rw (t, u) refl
    | inr u ↦ rw (t, u) (get_answer-answered_map id key rows)
  ]
]

first-append_none :
    (p : AssessmentAnswer → Bool) (xs : List AssessmentAnswer) (x : AssessmentAnswer)
    → first p xs ≡ none
    → first p (xs ++ x ∷ []) ≡ (if p x then some x else none)
first-append_none p [] x e = refl
first-append_none p (y ∷ xs) x e = ground (arith, first-append_none p xs x)

first-append_some :
    (p : AssessmentAnswer → Bool) (xs : List AssessmentAnswer) (x y : AssessmentAnswer)
    → first p xs ≡ some y
    → first p (xs ++ x ∷ []) ≡ some y
first-append_some p [] x y e = cc
first-append_some p (z ∷ xs) x y e = ground (arith, first-append_some p xs x y)

abbrev new_row : ℕ → String → Value → AssessmentAnswer
new_row id key value = record { assessment_id = id; question_key = key; value_json = value }

-- The answer that was stored is the one that is read.
upsert_answer_self :
    (id : ℕ) (key : String) (value : Value) (rows : List AssessmentAnswer)
    → value_of (first (is_row id key) (upsert_answer id key value rows)) ≡ some value
unfolding upsert_answer
upsert_answer_self id key value rows = elim (Option-cases (first (is_row id key) rows)) [
  | inl e ↦
      let self : is_row id key (new_row id key value) ≡ true = ground (arith, eq_refl key) in
      rw (e, first-append_none (is_row id key) rows (new_row id key value) e, self) refl
  | inr (r, e) ↦
      let fits = first-fits (is_row id key) rows r e in
      rw
        (
          e,
          first-update (is_row id key) (is_row id key) (set_value value) rows r (λ x. refl) e,
          fits,
        )
        refl
]

first-update_same :
    (p q : AssessmentAnswer → Bool) (f : AssessmentAnswer → AssessmentAnswer)
    (rows : List AssessmentAnswer)
    → ((r : AssessmentAnswer) → p (f r) ≡ p r)
    → ((r : AssessmentAnswer) → p r ≡ true → q r ≡ false)
    → first p (update_where q f rows) ≡ first p rows
first-update_same p q f [] same apart = refl
first-update_same p q f (r ∷ rows) same apart =
    ground (arith, same r, apart r, first-update_same p q f rows same apart)

-- The answers to other questions, and of other assessments, are read as before.
upsert_answer-other :
    (id : ℕ) (key : String) (value : Value) (rows : List AssessmentAnswer) (other : ℕ) (k : String)
    → ((r : AssessmentAnswer) → is_row other k r ≡ true → is_row id key r ≡ false)
    → first (is_row other k) (upsert_answer id key value rows) ≡ first (is_row other k) rows
unfolding upsert_answer
upsert_answer-other id key value rows other k apart =
    elim (Option-cases (first (is_row id key) rows)) [
      | inr (r, e) ↦ rw e (
          first-update_same (is_row other k) (is_row id key) (set_value value) rows (λ x. refl)
            apart)
      | inl e ↦
          let row = new_row id key value in
          elim (Option-cases (first (is_row other k) rows)) [
            | inr (y, g) ↦ rw (e, first-append_some (is_row other k) rows row y g, g) refl
            | inl g ↦
                let self : is_row id key row ≡ true = ground (arith, eq_refl key) in
                let off : is_row other k row ≡ false = elim (Bool-cases (is_row other k row)) [
                  | inr f ↦ f
                  | inl t ↦ absurd (false≢true (sym (apart row t) ∙ self))
                ] in
                rw (e, first-append_none (is_row other k) rows row g, off, g) refl
          ]
    ]

apart_by_key :
    (id : ℕ) (key k : String)
    → key ≢ k
    → (other : ℕ) (r : AssessmentAnswer) → is_row other k r ≡ true
    → is_row id key r ≡ false
apart_by_key id key k ne other r e = elim (Bool-cases (str_eq r.question_key key)) [
  | inr f ↦ elim (Bool-cases (r.assessment_id == id)) [ inl t ↦ rw (t, f) refl | inr g ↦ rw g refl ]
  | inl t ↦
      let other_key : str_eq r.question_key k ≡ true = ground arith in
      absurd
        (ne (sym (str_eq_sound r.question_key key t) ∙ str_eq_sound r.question_key k other_key))
]

apart_by_id :
    (id other : ℕ) (key k : String)
    → id ≢ other
    → (r : AssessmentAnswer) → is_row other k r ≡ true
    → is_row id key r ≡ false
apart_by_id id other key k ne r e = ground arith

Verdict-cases : (v : Verdict) → (v ≡ valid) ⊎ ((v ≡ invalid) ⊎ (v ≡ unhashable))
Verdict-cases valid = inl refl
Verdict-cases invalid = inr (inl refl)
Verdict-cases unhashable = inr (inr refl)

module _ {W : Type 0} (bank : Bank) (startup_id : ℕ) (startup : Startup)
    (is_blank : String → Bool) where
  -- What holds of a call that stored an answer.
  abbrev IsAccepted :
      Assessment → String → Value → AssessmentDb W → Submission × AssessmentDb W → Type 0
  IsAccepted a key value db (stored next, db') =
      (is_in_progress a.status ≡ true)
      × ((q : Question) × (next_question bank (answered_map a.id db.answers) startup ≡ some q)
          × (q.key ≡ key)
          × (validate_answer is_blank q value ≡ valid))
      × (get_answer key (answered_map a.id db'.answers) ≡ some value)
      × ((other : ℕ) (k : String)
          → (a.id ≢ other) ⊎ (key ≢ k)
          → get_answer k (answered_map other db'.answers)
            ≡ get_answer k (answered_map other db.answers))
      × (next ≡ next_question bank (answered_map a.id db'.answers) startup)
  IsAccepted a key value db (raised e, db') = db' ≡ db
  IsAccepted a key value db (crashed, db') = db' ≡ db

  store_answer-IsAccepted :
      (a : Assessment) (key : String) (value : Value) (db : AssessmentDb W) (q : Question)
      → is_in_progress a.status ≡ true
      → next_question bank (answered_map a.id db.answers) startup ≡ some q
      → str_eq q.key key ≡ true
      → validate_answer is_blank q value ≡ valid
      → IsAccepted a key value db (store_answer bank startup_id startup a key value db)
  unfolding store_answer
  store_answer-IsAccepted a key value db q active current same v = (
    active,
    (q, current, str_eq_sound q.key key same, v),
    get_answer-answered_map a.id key (upsert_answer a.id key value db.answers)
        ∙ upsert_answer_self a.id key value db.answers,
    λ other k apart.
        get_answer-answered_map other k (upsert_answer a.id key value db.answers)
        ∙ ap value_of (
            upsert_answer-other a.id key value db.answers other k (
              ⊎_elim (λ n r e. apart_by_id a.id other key k n r e)
                (λ n r e. apart_by_key a.id key k n other r e) apart))
        ∙ sym (get_answer-answered_map other k db.answers),
    refl,
  )

  submit_answer-IsAccepted :
      (a : Assessment) (key : String) (value : Value) (db : AssessmentDb W)
      → IsAccepted a key value db (submit_answer bank startup_id startup is_blank a key value db)
  unfolding submit_answer
  submit_answer-IsAccepted a key value db = elim (Bool-cases (is_in_progress a.status)) [
    | inr f ↦ rw (f, submit_answer) refl
    | inl active ↦ elim (Option-cases (next_question bank (answered_map a.id db.answers) startup)) [
      | inl e ↦ rw (active, e, submit_answer) refl
      | inr (q, e) ↦ elim (Bool-cases (str_eq q.key key)) [
        | inr f ↦ rw (active, e, f, submit_answer) refl
        | inl same ↦ elim (Verdict-cases (validate_answer is_blank q value)) [
          | inl v ↦
              rw (active, e, same, v, submit_answer)
                (store_answer-IsAccepted a key value db q active e same v)
          | inr (inl v) ↦ rw (active, e, same, v, submit_answer) refl
          | inr (inr v) ↦ rw (active, e, same, v, submit_answer) refl
        ]
      ]
    ]
  ]

  -- A submission that stores: the assessment is in progress, the key is that of the current question
  -- and the value passes its check; the answer is then read back under the key, every other answer of
  -- this or another assessment is read as before, and the question returned is the next one.
  pub submit_answer_stored :
      (assessment : Assessment) (key : String) (value : Value) (db db' : AssessmentDb W)
      (next : Option Question)
      → submit_answer bank startup_id startup is_blank assessment key value db ≡ (stored next, db')
      → (is_in_progress assessment.status ≡ true)
        × ((q : Question) × (next_question bank (answered_map assessment.id db.answers) startup
              ≡ some q)
            × (q.key ≡ key)
            × (validate_answer is_blank q value ≡ valid))
        × (get_answer key (answered_map assessment.id db'.answers) ≡ some value)
        × ((other : ℕ) (k : String)
            → (assessment.id ≢ other) ⊎ (key ≢ k)
            → get_answer k (answered_map other db'.answers)
              ≡ get_answer k (answered_map other db.answers))
        × (next ≡ next_question bank (answered_map assessment.id db'.answers) startup)
  submit_answer_stored a key value db db' next e =
      subst (IsAccepted a key value db) e (submit_answer-IsAccepted a key value db)
