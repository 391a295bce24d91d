-- ===== src/Mission/Today/Size.antt =====
-- How many tasks a new mission has (app/services/mission/service.py).
use cofoundaz_api.Prelude.{
  ℕ, ◌+◌, ◌≤◌, ◌≡◌, Bool, not, List, [], ◌∷◌, ◌==◌, ◌&&◌, count, length, length-append,
  count-append, Bool-cases, inl, inr, arith,
}
use cofoundaz_api.Roadmap.{Tables, RoadmapTask}
use cofoundaz_api.Mission.{MissionTask, MissionDb}
use cofoundaz_api.Mission.Today.{
  carry, fill, carried_tasks, most_recent_prior_mission, candidate_tasks, mission_rows,
  mission_size, enqueue_mission_reason, generate, get_or_generate_today, is_weekend,
  weekend_missions,
}
use cofoundaz_api.Mission.Today.Once.{get_or_generate_today-cases}

carry-length :
    (new_id : ℕ → ℕ) (mission_id size order : ℕ) (carried : List MissionTask)
    → order ≤ size
    → order + length (carry new_id mission_id size order carried) ≤ size
unfolding carry
carry-length new_id mission_id size order [] h = omega arith
carry-length new_id mission_id size order (s ∷ carried) h =
    ground (arith, carry-length new_id mission_id size (order + 1) carried)

fill-length :
    (db : Tables) (new_id : ℕ → ℕ) (mission_id size : ℕ) (carried : List MissionTask) (order : ℕ)
    (tasks : List RoadmapTask)
    → order ≤ size
    → order + length (fill db new_id mission_id size carried order tasks) ≤ size
unfolding fill
fill-length db new_id mission_id size carried order [] h = omega arith
fill-length db new_id mission_id size carried order (t ∷ tasks) h = ground (
  arith,
  fill-length db new_id mission_id size carried order tasks,
  fill-length db new_id mission_id size carried (order + 1) tasks,
)

mission_rows-length :
    (new_id : ℕ → ℕ) (mission_id roadmap_id startup_id today : ℕ) (db : MissionDb)
    → length (mission_rows new_id mission_id roadmap_id startup_id today db)
      ≤ mission_size db startup_id
unfolding mission_rows
mission_rows-length new_id mission_id roadmap_id startup_id today db =
    let size = mission_size db startup_id in
    let snoozed = carried_tasks db (most_recent_prior_mission db startup_id today) in
    let carried = carry new_id mission_id size 0 snoozed in
    let tasks = candidate_tasks db.roadmap roadmap_id in
    omega (
      arith,
      length-append carried (fill db.roadmap new_id mission_id size carried (length carried) tasks),
      carry-length new_id mission_id size 0 snoozed (omega arith),
      fill-length db.roadmap new_id mission_id size carried (length carried) tasks
          (omega (arith, carry-length new_id mission_id size 0 snoozed (omega arith))),
    )

count-le : (p : MissionTask → Bool) (tasks : List MissionTask) → count p tasks ≤ length tasks
count-le p [] = omega arith
count-le p (t ∷ tasks) = ground (arith, count-le p tasks)

enqueue_mission_reason-tasks :
    (mission_id startup_id order job_id now : ℕ) (db : MissionDb)
    → (enqueue_mission_reason mission_id startup_id order job_id now db).tasks ≡ db.tasks
unfolding enqueue_mission_reason
enqueue_mission_reason-tasks mission_id startup_id order job_id now db = ground arith

abbrev of_mission : ℕ → MissionTask → Bool
of_mission id t = t.mission_id == id

generate-size :
    (startup_id today roadmap_id mission_id : ℕ) (new_id : ℕ → ℕ) (job_id now : ℕ) (db : MissionDb)
    → count (of_mission mission_id) db.tasks ≡ 0
    → count
        (of_mission mission_id)
        (generate startup_id today roadmap_id mission_id new_id job_id now db).tasks
      ≤ mission_size db startup_id
unfolding generate
generate-size startup_id today roadmap_id mission_id new_id job_id now db fresh =
    let rows = mission_rows new_id mission_id roadmap_id startup_id today db in
    elim (Bool-cases (is_weekend today && not (weekend_missions db startup_id))) [
      | inl off ↦ rw (off, generate) (omega arith)
      | inr on ↦
          rw (on, generate)
            (rw (enqueue_mission_reason-tasks mission_id startup_id (length rows) job_id now _) (
              omega (
                arith,
                count-append (of_mission mission_id) db.tasks rows,
                count-le (of_mission mission_id) rows,
                mission_rows-length new_id mission_id roadmap_id startup_id today db,
              )))
    ]

-- However the call ends, the mission whose id it draws has at most as many tasks as the settings of
-- the startup say. The id is new: no task has it before.
pub get_or_generate_today_size :
    (startup_id today mission_id : ℕ) (new_id : ℕ → ℕ) (job_id now : ℕ) (db : MissionDb)
    → count (of_mission mission_id) db.tasks ≡ 0
    → let (_, db') = get_or_generate_today startup_id today mission_id new_id job_id now db in
      count (of_mission mission_id) db'.tasks ≤ mission_size db startup_id
get_or_generate_today_size startup_id today mission_id new_id job_id now db fresh =
    elim (get_or_generate_today-cases startup_id today mission_id new_id job_id now db) [
      | inl (m, known, e) ↦ rw e (omega arith)
      | inr other ↦ elim other [
        | inl e ↦ rw e (omega arith)
        | inr (absent, (roadmap_id, e)) ↦
            rw e (generate-size startup_id today roadmap_id mission_id new_id job_id now db fresh)
      ]
    ]
