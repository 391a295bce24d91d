-- ===== src/Assessment/Engine/Next.antt =====
-- Which question the assessment engine asks (app/services/assessment/engine.py).
use cofoundaz_api.Prelude.{
  true, false, none, some, List, [], ◌∷◌, ◌++◌, All, ◌≡◌, refl, ap, ◌⊎◌, inl, inr, Bool-cases,
}
use cofoundaz_api.Assessment.{Question, Bank, Answers, has_answer}
use cofoundaz_api.Assessment.Engine.{Startup, is_applicable, next_of, next_question}

-- Nothing is left to ask about a question: it has an answer, or it does not apply.
abbrev pub IsSettled : Answers → Startup → Question → Type 0
IsSettled answers startup q =
    (has_answer q.key answers ≡ true) ⊎ (is_applicable q answers startup ≡ false)

abbrev pub IsOpen : Answers → Startup → Question → Type 0
IsOpen answers startup q =
    (has_answer q.key answers ≡ false) × (is_applicable q answers startup ≡ true)

-- The questions split at the first open one.
abbrev pub IsFirstOpen : Answers → Startup → Question → List Question → Type 0
IsFirstOpen answers startup q qs =
    (before after : List Question) × (qs ≡ before ++ q ∷ after)
    × All (IsSettled answers startup) before
    × IsOpen answers startup q

module _ (answers : Answers) (startup : Startup) where
  skip :
      (r q : Question) (qs : List Question)
      → IsSettled answers startup r
      → IsFirstOpen answers startup q qs
      → IsFirstOpen answers startup q (r ∷ qs)
  skip r q qs s f = (r ∷ f.0, f.1, ap (λ l. r ∷ l) f.2, (s, f.3), f.4)

  next_of-cases :
      (qs : List Question)
      → ((next_of qs answers startup ≡ none) × All (IsSettled answers startup) qs)
        ⊎ ((q : Question) × (next_of qs answers startup ≡ some q)
            × IsFirstOpen answers startup q qs)
  unfolding next_of
  next_of-cases [] = inl (refl, tt)
  next_of-cases (r ∷ qs) = elim (Bool-cases (has_answer r.key answers)) [
    | inl a ↦ elim (next_of-cases qs) [
      | inl h ↦ inl ((rw a h.0), (inl a, h.1))
      | inr h ↦ inr (h.0, (rw a h.1), skip r h.0 qs (inl a) h.2)
    ]
    | inr a ↦ elim (Bool-cases (is_applicable r answers startup)) [
      | inl b ↦ inr (r, (rw (a, b) refl), ([], qs, refl, tt, (a, b)))
      | inr b ↦ elim (next_of-cases qs) [
        | inl h ↦ inl ((rw (a, b) h.0), (inr b, h.1))
        | inr h ↦ inr (h.0, (rw (a, b) h.1), skip r h.0 qs (inr b) h.2)
      ]
    ]
  ]

-- Whatever the answers, the engine either says that nothing is left, and then every question of the
-- bank has an answer or does not apply, or it asks a question that applies and has no answer, and
-- every question before it in the bank has an answer or does not apply.
pub next_question-cases :
    (bank : Bank) (answers : Answers) (startup : Startup)
    → ((next_question bank answers startup ≡ none) × All (IsSettled answers startup) bank.questions)
      ⊎ ((q : Question) × (next_question bank answers startup ≡ some q)
          × IsFirstOpen answers startup q bank.questions)
unfolding next_question
next_question-cases bank answers startup = next_of-cases answers startup bank.questions
