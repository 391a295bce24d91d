-- ===== src/Mission/Today/Once.antt =====
-- How often a day's mission is generated (app/services/mission/service.py).
use cofoundaz_api.Prelude.{
  ℕ, ◌≡◌, refl, sym, ap, ◌∙◌, Bool, true, not, Option, none, some, List, [], ◌∷◌, ◌++◌, ◌&&◌, first,
  length, Bool-cases, Option-cases, inl, inr, ◌⊎◌, arith,
}
use cofoundaz_api.Roadmap.{find_roadmap}
use cofoundaz_api.Mission.{Mission, MissionDb, is_mission_on}
use cofoundaz_api.Mission.Today.{
  mission_rows, new_mission, enqueue_mission_reason, generate, get_or_generate_today, is_weekend,
  weekend_missions,
}

first-append :
    (p : Mission → Bool) (xs : List Mission) (m : Mission)
    → first p xs ≡ none
    → p m ≡ true
    → first p (xs ++ m ∷ []) ≡ some m
first-append p [] m absent fits = ground (arith, fits)
first-append p (x ∷ xs) m absent fits = ground (arith, first-append p xs m, fits)

enqueue_mission_reason-missions :
    (mission_id startup_id order job_id now : ℕ) (db : MissionDb)
    → (enqueue_mission_reason mission_id startup_id order job_id now db).missions ≡ db.missions
unfolding enqueue_mission_reason
enqueue_mission_reason-missions mission_id startup_id order job_id now db = ground arith

generate-missions :
    (startup_id today roadmap_id mission_id : ℕ) (new_id : ℕ → ℕ) (job_id now : ℕ) (db : MissionDb)
    → (generate startup_id today roadmap_id mission_id new_id job_id now db).missions
      ≡ db.missions ++ new_mission mission_id startup_id today ∷ []
unfolding generate
generate-missions startup_id today roadmap_id mission_id new_id job_id now db =
    elim (Bool-cases (is_weekend today && not (weekend_missions db startup_id))) [
      | inl off ↦ rw (off, generate) refl
      | inr on ↦
          rw (on, generate)
            (enqueue_mission_reason-missions mission_id startup_id
              (length (mission_rows new_id mission_id roadmap_id startup_id today db)) job_id now _)
    ]

-- The ways in which a call ends.
pub get_or_generate_today-cases :
    (startup_id today mission_id : ℕ) (new_id : ℕ → ℕ) (job_id now : ℕ) (db : MissionDb)
    → ((m : Mission) × (first (is_mission_on startup_id today) db.missions ≡ some m)
        × (get_or_generate_today startup_id today mission_id new_id job_id now db ≡ (some m, db)))
      ⊎ (get_or_generate_today startup_id today mission_id new_id job_id now db ≡ (none, db))
      ⊎ (first (is_mission_on startup_id today) db.missions ≡ none)
        × ((roadmap_id : ℕ) × (get_or_generate_today startup_id today mission_id new_id job_id now
                db
              ≡ (
                some (new_mission mission_id startup_id today),
                generate startup_id today roadmap_id mission_id new_id job_id now db,
              )))
unfolding get_or_generate_today
get_or_generate_today-cases startup_id today mission_id new_id job_id now db =
    elim (Option-cases (first (is_mission_on startup_id today) db.missions)) [
      | inr (m, known) ↦ inl (m, known, (rw (known, get_or_generate_today) refl))
      | inl absent ↦ elim (Option-cases (find_roadmap db.roadmap startup_id)) [
        | inl missing ↦ inr (inl (rw (absent, get_or_generate_today) (rw missing refl)))
        | inr (roadmap, found) ↦
            inr (inr (absent, (roadmap.id, (rw (absent, get_or_generate_today) (rw found refl)))))
      ]
    ]

known_again :
    (startup_id today mission_id : ℕ) (new_id : ℕ → ℕ) (job_id now : ℕ) (db : MissionDb)
    (m : Mission)
    → first (is_mission_on startup_id today) db.missions ≡ some m
    → get_or_generate_today startup_id today mission_id new_id job_id now db ≡ (some m, db)
unfolding get_or_generate_today
known_again startup_id today mission_id new_id job_id now db m known =
    rw (known, get_or_generate_today) refl

new_is_on :
    (id startup_id today : ℕ)
    → is_mission_on startup_id today (new_mission id startup_id today) ≡ true
new_is_on id startup_id today = ground arith

none_given :
    (m : Mission) (db db' : MissionDb)
    → ◌≡◌ {A = Option Mission × MissionDb} (none, db) (some m, db')
    → ⊥
none_given m db db' p = cc

-- After a call that gave a mission, a second call on the same day gives the same mission, whatever
-- ids it would draw, and changes nothing.
pub get_or_generate_today_again :
    (startup_id today mission_id mission_id' : ℕ) (new_id new_id' : ℕ → ℕ)
    (job_id job_id' now now' : ℕ) (db db' : MissionDb) (m : Mission)
    → get_or_generate_today startup_id today mission_id new_id job_id now db ≡ (some m, db')
    → get_or_generate_today startup_id today mission_id' new_id' job_id' now' db' ≡ (some m, db')
get_or_generate_today_again startup_id today mission_id mission_id' new_id new_id' job_id job_id'
      now now' db db' m success =
    known_again startup_id today mission_id' new_id' job_id' now' db' m
      (elim (get_or_generate_today-cases startup_id today mission_id new_id job_id now db) [
        | inl (m', known, e) ↦
            let p : (some m', db) ≡ (some m, db') = sym e ∙ success in
            ap
              (λ (x : Option Mission × MissionDb).
                first (is_mission_on startup_id today) x.1.missions)
              (sym p)
            ∙ known
            ∙ ap (λ (x : Option Mission × MissionDb). x.0) p
        | inr other ↦ elim other [
          | inl e ↦ absurd (none_given m db db' (sym e ∙ success))
          | inr (absent, (roadmap_id, e)) ↦
              let p = sym e ∙ success in
              ap
                (λ (x : Option Mission × MissionDb).
                  first (is_mission_on startup_id today) x.1.missions)
                (sym p)
              ∙ ap (first (is_mission_on startup_id today))
                  (generate-missions startup_id today roadmap_id mission_id new_id job_id now db)
              ∙ first-append (is_mission_on startup_id today) db.missions
                  (new_mission mission_id startup_id today) absent
                  (new_is_on mission_id startup_id today)
              ∙ ap (λ (x : Option Mission × MissionDb). x.0) p
        ]
      ])
