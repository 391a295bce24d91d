-- ===== src/Mission/Tasks/Completion.antt =====
-- When a mission completes (app/services/mission/service.py).
use cofoundaz_api.Prelude.{
  ℕ, ◌+◌, ◌≡◌, ◌≢◌, refl, ap, ◌∙◌, Bool, false, List, [], ◌∷◌, ◌==◌, ◌&&◌, count, update_where,
  Bool-cases, inl, inr, ◌⊎◌, arith, count-append, count-update, not,
}
use cofoundaz_api.Mission.{
  Mission, MissionTask, MissionDb, is_complete, MissionEvent, mission_completed, streak_milestone,
  task_completed, publish,
}
use cofoundaz_api.Mission.Streak.{streak}
use cofoundaz_api.Mission.Tasks.{
  is_remaining_of, is_done_of, set_complete, check_streak, flip_mission, maybe_complete_mission,
}

abbrev pub is_completion_of : ℕ → MissionEvent → Bool
is_completion_of id (mission_completed m) = m == id
is_completion_of id (streak_milestone s n) = false
is_completion_of id (task_completed m t) = false

-- The mission's work is over: no task of it is left, and at least one is done.
abbrev pub IsFinished : ℕ → List MissionTask → Type 0
IsFinished id tasks = (count (is_remaining_of id) tasks ≡ 0) × (count (is_done_of id) tasks ≢ 0)

-- Nothing but the streak event is published at the end.
check_streak-keeps :
    (startup_id today : ℕ) (db : MissionDb)
    → ((check_streak startup_id today db).missions ≡ db.missions)
      × ((check_streak startup_id today db).tasks ≡ db.tasks)
      × ((id : ℕ)
          → count (is_completion_of id) (check_streak startup_id today db).published
            ≡ count (is_completion_of id) db.published)
unfolding check_streak
check_streak-keeps startup_id today db =
    let new_streak = streak db startup_id today in
    (
      ground arith,
      ground arith,
      λ id. ground (
        arith,
        count-append (is_completion_of id) db.published
            (streak_milestone startup_id new_streak ∷ []),
      ),
    )

-- The mission's row is still pending.
abbrev pub is_pending_row : ℕ → Mission → Bool
is_pending_row id m = (m.id == id) && not (is_complete m.status)

flip_mission-effects :
    (mission : Mission) (today : ℕ) (db : MissionDb)
    → let db' = flip_mission mission today db in
      (count (is_pending_row mission.id) db'.missions ≡ 0)
      × (count (is_completion_of mission.id) db'.published
          ≡ count (is_completion_of mission.id) db.published + 1)
unfolding flip_mission
flip_mission-effects mission today db =
    let flipped = record db {
      missions = update_where (λ m. m.id == mission.id) set_complete db.missions;
    } in
    let (missions, _, events) =
      check_streak-keeps mission.startup_id today
        (publish (mission_completed mission.id) flipped) in
    (
      ap (count (is_pending_row mission.id)) missions
          ∙ count-update (λ m. m.id == mission.id) (is_pending_row mission.id) set_complete
              db.missions (λ x e. ground arith) (λ x e. ground arith),
      ground (
        arith,
        events mission.id,
        count-append (is_completion_of mission.id) db.published (mission_completed mission.id ∷ []),
      ),
    )

-- The check flips a mission that is pending exactly if its work is over, and then publishes one
-- `mission.completed` event for it; otherwise it changes nothing.
pub maybe_complete_mission_lem :
    (mission : Mission) (today : ℕ) (db : MissionDb)
    → is_complete mission.status ≡ false
    → let db' = maybe_complete_mission mission today db in
      (IsFinished mission.id db.tasks
        × (count (is_pending_row mission.id) db'.missions ≡ 0)
        × (count (is_completion_of mission.id) db'.published
            ≡ count (is_completion_of mission.id) db.published + 1))
      ⊎ ((IsFinished mission.id db.tasks → ⊥) × (db' ≡ db))
unfolding maybe_complete_mission
maybe_complete_mission_lem mission today db still =
    elim (Bool-cases (count (is_remaining_of mission.id) db.tasks == 0)) [
      | inr more ↦
          rw (still, maybe_complete_mission) (rw more (inr ((λ h. absurd (ground arith)), refl)))
      | inl over ↦ elim (Bool-cases (count (is_done_of mission.id) db.tasks == 0)) [
        | inl idle ↦
            rw (still, maybe_complete_mission)
              (rw over (rw idle (inr ((λ h. absurd (ground arith)), refl))))
        | inr worked ↦
            let (missions, events) = flip_mission-effects mission today db in
            rw (still, maybe_complete_mission)
              (rw over (rw worked (inl ((ground arith, ground arith), missions, events))))
      ]
    ]
